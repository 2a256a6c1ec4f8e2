-- ===== src/Experiments/Sticky.antt =====
-- `GetAssignment` of internal/experiments/service.go for a user who has an assignment already.
use featureflag_api.Prelude.{String, false, some, List, [], ◌∷◌, ◌=s◌, ◌≡◌, refl}
use featureflag_api.Prelude.{find_by, filter_by, sort_by, arith, suc}
use featureflag_api.Exec.{Result, ok}
use featureflag_api.Model.{ExperimentVariant}
use featureflag_api.Schema.{Tables, Experiment, Variant, Assignment}
use featureflag_api.Database.{World, run, advance}
use featureflag_api.Database.Reading.{Works, Unchanged}
use featureflag_api.Experiments.Postgres.{
  at_key, assigned_to, postgres_store, get_experiment_by_key_and_environment, select_experiment,
  get_variants_by_experiment_id, select_variants, select_assignment,
}
use featureflag_api.Experiments.Postgres
use featureflag_api.Experiments.Service.{
  new_service, get_experiment_or_err, lookup_experiment, variant_by_id, variant_to_model, found,
}
use featureflag_api.Experiments.GetAssignment.{get_assignment, assign_among, assign_or_reuse}

-- The variants of an experiment, as the store orders them.
abbrev pub variants_of : Tables → String → List Variant
variants_of t id =
    sort_by (λ (v : Variant). v.id)
      (filter_by (λ (v : Variant). v.experiment_id =s id) t.experiment_variants)

-- The user has an assignment in the experiment of the key, to a variant that is still there.
pub record Assigned (t : Tables) (user_id key env : String) (v : Variant) : Type 0 where
  pub experiment : Experiment
  pub stored : find_by (at_key key env) t.experiments ≡ some experiment
  pub assignment : Assignment
  pub assigned :
      find_by (assigned_to user_id experiment.id) t.experiment_assignments ≡ some assignment
  pub there :
      find_by (λ (u : Variant). u.id =s assignment.variant_id) (variants_of t experiment.id)
      ≡ some v

variant_by_id-find_by :
    (id : String) (vs : List Variant) (v : Variant) (w : World)
    → find_by (λ (u : Variant). u.id =s id) vs ≡ some v
    → variant_by_id id vs w ≡ (ok (variant_to_model v), w)
unfolding variant_by_id find_by
variant_by_id-find_by id [] v w h = cc
variant_by_id-find_by id (u ∷ vs) v w h = ground (arith, variant_by_id-find_by id vs v w)

-- The reply is the variant, and the tables and the open transaction are those of before.
abbrev pub Kept : World → Variant → Result ExperimentVariant × World → Type 0
Kept w v out = (out.0 ≡ ok (variant_to_model v)) × Unchanged w out.1

among-Assigned :
    (user_id key env id : String) (a : Assignment) (vs : List Variant) (v : Variant)
    (before w : World)
    → Works w
    → Unchanged before w
    → find_by (assigned_to user_id id) w.committed.experiment_assignments ≡ some a
    → find_by (λ (u : Variant). u.id =s a.variant_id) vs ≡ some v
    → Kept before v (assign_among new_service user_id key env id vs w)
unfolding assign_among assign_or_reuse new_service postgres_store Postgres.get_assignment
    select_assignment run find_by
among-Assigned user_id key env id a [] v before w works same e h = cc
among-Assigned user_id key env id a (u ∷ vs) v before w works same e h =
    rw (works 0, e, variant_by_id-find_by a.variant_id (u ∷ vs) v (advance w) h)
      (refl, record { committed = same.committed; pending = same.pending })

-- An assignment is kept: on a server that works, a user who has an assignment gets its variant,
-- whatever bucket the weights would give now, and the tables stay as they are, with no transaction
-- opened or closed.
pub get_assignment-Assigned :
    (w : World) (user_id key env : String) (v : Variant)
    → Works w
    → user_id =s "" ≡ false
    → Assigned w.committed user_id key env v
    → Kept w v (get_assignment new_service user_id key env w)
unfolding get_assignment new_service postgres_store get_experiment_or_err lookup_experiment found
    get_experiment_by_key_and_environment select_experiment get_variants_by_experiment_id
    select_variants run
get_assignment-Assigned w user_id key env v works named a =
    rw (named, works 0, a.stored, works 1)
      (among-Assigned user_id key env a.experiment.id a.assignment
        (variants_of w.committed a.experiment.id) v w (advance (advance w))
        (λ n. works (suc (suc n))) (record { committed = refl; pending = refl }) a.assigned a.there)
