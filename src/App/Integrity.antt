-- ===== src/App/Integrity.antt =====
-- The rules of the flags and the weights of the experiments after any requests.
use featureflag_api.Schema.{Tables}
use featureflag_api.Prelude.{String, none, List, ◌≡◌, ap, sym, subst, refl, ◌∙◌}
use featureflag_api.Users.Service.{Bcrypt}
use featureflag_api.Database.{World}
use featureflag_api.Flags.Integrity.{RulesFit}
use featureflag_api.Flags.Integrity.Changes.{
  CreatedFrom-RulesFit, UpdatedFrom-RulesFit, DeletedFrom-RulesFit,
}
use featureflag_api.Flags.Scope.{CreatedFrom-OnlyFlags, UpdatedFrom-OnlyFlags}
use featureflag_api.Experiments.Integrity.{WeightsFit, CreatedFrom-WeightsFit}
use featureflag_api.App.History.Sequences.{Call, serve_all}
use featureflag_api.App.Invariants.{IsKept}
use featureflag_api.App.Invariants.Sequences.{serve_all_preserved}
use featureflag_api.Transport.{Libraries}

RulesFit-IsKept : (bcrypt : Bcrypt) → IsKept bcrypt RulesFit
RulesFit-IsKept bcrypt = record {
  log_grows = λ t es h. record { owned = h.owned; fits = h.fits };
  assigned = λ t rows h. record { owned = h.owned; fits = h.fits };
  flag_created = λ c input row t h d. CreatedFrom-RulesFit c input row t h d;
  flag_updated = λ c input row t h d. UpdatedFrom-RulesFit c input row t h d;
  flag_deleted = λ c key env id t h d. DeletedFrom-RulesFit c key env id t h d;
  user_created = λ c input row t h d.
      subst RulesFit (sym d.stored.tables_are) (record { owned = h.owned; fits = h.fits });
  user_updated = λ c input row t h d.
      subst RulesFit (sym d.tables_are) (record { owned = h.owned; fits = h.fits });
  user_deleted =
      λ c id t h d. subst RulesFit (sym d.tables_are) (record { owned = h.owned; fits = h.fits });
  experiment_created = λ c input row t h d.
      subst RulesFit (sym d.added.tables_are) (record { owned = h.owned; fits = h.fits });
}

-- Whatever the requests, their callers and the answers of the server: if each rule in the tables
-- belongs to a flag there and is of the type of its flag's strategy, then so it is after any sequence
-- of requests.
pub serve_all-RulesFit :
    (lib : Libraries) (secret : String) (calls : List Call) (w : World)
    → w.pending ≡ none
    → RulesFit w.committed
    → RulesFit (serve_all lib secret calls w).committed
serve_all-RulesFit lib secret = serve_all_preserved lib secret RulesFit (RulesFit-IsKept lib.bcrypt)

-- The tables of the experiments and their variants are those of before.
record SameExperiments (c t : Tables) : Type 0 where
  experiments_are : t.experiments ≡ c.experiments
  variants_are : t.experiment_variants ≡ c.experiment_variants

-- An equation of tables that leaves both alone.
same_experiments :
    (c u t : Tables)
    → t ≡ u
    → u.experiments ≡ c.experiments
    → u.experiment_variants ≡ c.experiment_variants
    → SameExperiments c t
same_experiments c u t e experiments variants = record {
  experiments_are = ap (λ (v : Tables). v.experiments) e ∙ experiments;
  variants_are = ap (λ (v : Tables). v.experiment_variants) e ∙ variants;
}

SameExperiments-WeightsFit : (c t : Tables) → SameExperiments c t → WeightsFit c → WeightsFit t
SameExperiments-WeightsFit c t s h = record {
  owned = rw (s.experiments_are, s.variants_are) h.owned;
  fits = rw s.variants_are h.fits;
  sums = rw (s.experiments_are, s.variants_are) h.sums;
}

WeightsFit-IsKept : (bcrypt : Bcrypt) → IsKept bcrypt WeightsFit
WeightsFit-IsKept bcrypt = record {
  log_grows = λ t es. SameExperiments-WeightsFit t _ (same_experiments t _ _ refl refl refl);
  assigned = λ t rows. SameExperiments-WeightsFit t _ (same_experiments t _ _ refl refl refl);
  flag_created = λ c input row t h d.
      SameExperiments-WeightsFit c t
        (same_experiments c _ t (CreatedFrom-OnlyFlags c input row t d) refl refl) h;
  flag_updated = λ c input row t h d.
      SameExperiments-WeightsFit c t
        (same_experiments c _ t (UpdatedFrom-OnlyFlags c input row t d) refl refl) h;
  flag_deleted = λ c key env id t h d.
      SameExperiments-WeightsFit c t (same_experiments c _ t d.tables_are refl refl) h;
  user_created = λ c input row t h d.
      SameExperiments-WeightsFit c t (same_experiments c _ t d.stored.tables_are refl refl) h;
  user_updated = λ c input row t h d.
      SameExperiments-WeightsFit c t (same_experiments c _ t d.tables_are refl refl) h;
  user_deleted = λ c id t h d.
      SameExperiments-WeightsFit c t (same_experiments c _ t d.tables_are refl refl) h;
  experiment_created = λ c input row t h d. CreatedFrom-WeightsFit c input row t h d;
}

-- Whatever the requests, their callers and the answers of the server: if each variant in the tables
-- belongs to an experiment and has a weight from 0 to 2 ^ 31 - 1, and the weights of each
-- experiment's variants add up to 100 in Go's `int`, then so it is after any sequence of requests.
pub serve_all-WeightsFit :
    (lib : Libraries) (secret : String) (calls : List Call) (w : World)
    → w.pending ≡ none
    → WeightsFit w.committed
    → WeightsFit (serve_all lib secret calls w).committed
serve_all-WeightsFit lib secret =
    serve_all_preserved lib secret WeightsFit (WeightsFit-IsKept lib.bcrypt)
