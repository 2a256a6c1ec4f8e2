-- ===== src/Examples/History.antt =====
-- Two requests on the resolver of NewApp: ann creates a flag, and eve, who has no claims, asks for the
-- deletion of a user.
use featureflag_api.Prelude.{List, none, true, [], ◌∷◌, ◌≡◌, refl, ap, sym, subst, ◌∙◌, filter_by}
use mathlib.Core.List.{Memᴰ}
use mathlib.Core.List.Memᴰ.{eq_of_singleton}
use featureflag_api.Schema.{Flag, Rule, Tables, Experiment, Variant}
use featureflag_api.Experiments.Postgres.{weight_fits}
use featureflag_api.Flags.Rules.{rule_type_to_strategy}
use featureflag_api.Flags.Integrity.{RulesFit}
use featureflag_api.App.Integrity.{serve_all-RulesFit, serve_all-WeightsFit}
use featureflag_api.Experiments.Integrity.{WeightsFit}
use featureflag_api.Auth.{background}
use featureflag_api.App.History.Sequences.{Call, serve_all, Accounted, serve_all-Accounted}
use featureflag_api.Transport.Requests
use featureflag_api.Examples.Mutations.{new_checkout}
use featureflag_api.Examples.Requests.{libraries, long_secret}
use featureflag_api.Prelude.Int.{int_add}
use featureflag_api.Examples.{world, by_ann, one_flag, dark_mode, variant_a, variant_b}
use featureflag_api.Examples.People.{button}

abbrev two_calls : List Call
two_calls =
    (by_ann, Requests.create_flag new_checkout) ∷ (background, Requests.delete_user "ann") ∷ []

serve_all-Accounted_example :
    let after = serve_all libraries long_secret two_calls world in
    (after.pending ≡ none) × Accounted two_calls one_flag after.committed
serve_all-Accounted_example = serve_all-Accounted libraries long_secret two_calls world refl

one_flag-RulesFit : RulesFit one_flag
unfolding rule_type_to_strategy
one_flag-RulesFit = record {
  owned = λ r m. (dark_mode, Memᴰ.head refl, ap (λ (x : Rule). x.flag_id) (eq_of_singleton m));
  fits = λ r f m n e.
      ap (λ (x : Rule). rule_type_to_strategy x.rule_type) (eq_of_singleton m)
      ∙ sym (ap (λ (x : Flag). x.rollout_strategy) (eq_of_singleton n));
}

serve_all-RulesFit_example : RulesFit (serve_all libraries long_secret two_calls world).committed
serve_all-RulesFit_example =
    serve_all-RulesFit libraries long_secret two_calls world refl one_flag-RulesFit

-- The experiment of the variants A and B, with ann's request for another.
abbrev tested : Experiment
tested = record { id = "e1"; key = "test"; environment = "prod" }

abbrev one_experiment : Tables
one_experiment = record one_flag {
  experiments = tested ∷ [];
  experiment_variants = variant_a ∷ variant_b ∷ [];
}

one_experiment-WeightsFit : WeightsFit one_experiment
unfolding filter_by int_add
one_experiment-WeightsFit = record {
  owned = λ v m. (tested, Memᴰ.head refl, (of_ab (λ x. x.experiment_id ≡ "e1") refl refl v m));
  fits = of_ab (λ x. weight_fits x.weight ≡ true) refl refl;
  sums = λ e m. rw (ap (λ (x : Experiment). x.id) (eq_of_singleton m)) refl;
}
  where
    of_ab :
        (P : Variant → Type 0)
        → P variant_a
        → P variant_b
        → (v : Variant) → Memᴰ v (variant_a ∷ variant_b ∷ [])
        → P v
    of_ab P a b v (Memᴰ.head e) = subst P (sym e) a
    of_ab P a b v (Memᴰ.tail m) = subst P (sym (eq_of_singleton m)) b

serve_all-WeightsFit_example :
    WeightsFit
      (serve_all libraries long_secret
        ((by_ann, Requests.create_experiment button) ∷ two_calls)
        (record world { committed = one_experiment })).committed
serve_all-WeightsFit_example =
    serve_all-WeightsFit libraries long_secret
      ((by_ann, Requests.create_experiment button) ∷ two_calls)
      (record world { committed = one_experiment }) refl one_experiment-WeightsFit
