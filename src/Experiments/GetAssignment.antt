-- ===== src/Experiments/GetAssignment.antt =====
-- `GetAssignment` of internal/experiments/service.go.
use featureflag_api.Prelude.{String, Option, none, some, List, [], ◌∷◌, ◌=s◌, if◌then◌else◌}
use featureflag_api.Errors.{experiments, experiments_operation}
use featureflag_api.Errors.Domain.{variant_not_found, invalid_user_id}
use featureflag_api.Exec.{Exec, pure, raise, on_error, ◌>>=◌, ◌>>◌}
use featureflag_api.Schema.{Variant, Assignment}
use featureflag_api.Database.{World}
use featureflag_api.Model.{ExperimentVariant}
use featureflag_api.Experiments.{context}
use featureflag_api.Experiments.Assign.{assign_variant_by_weight}
use featureflag_api.Experiments.Service.{
  Service, get_experiment_or_err, variant_by_id, variant_to_model,
}

-- The user has no assignment yet: the computed one is stored.
unfoldable pub assign_new :
    Service → String → String → String → String → Variant → Exec World ExperimentVariant
assign_new s user_id key env experiment_id assigned = do
  on_error
      (experiments_operation (
        context "experiments.service.get_assignment.store_upsert_assignment" key env experiment_id
          user_id assigned.id))
      (s.store.upsert_assignment
        (record { user_id = user_id; experiment_id = experiment_id; variant_id = assigned.id }))
  pure (variant_to_model assigned)

unfoldable pub assign_or_reuse :
    Service
    → String
    → String
    → String
    → String
    → Variant
    → List Variant
    → Option Assignment
    → Exec World ExperimentVariant
unfolding assign_new
assign_or_reuse s user_id key env experiment_id v vs (some existing) =
    variant_by_id existing.variant_id (v ∷ vs)
assign_or_reuse s user_id key env experiment_id v vs none =
    assign_new s user_id key env experiment_id (assign_variant_by_weight user_id experiment_id v vs)

unfoldable pub assign_among :
    Service → String → String → String → String → List Variant → Exec World ExperimentVariant
unfolding assign_or_reuse
assign_among s user_id key env experiment_id [] = raise (experiments (variant_not_found "" key env))
assign_among s user_id key env experiment_id (v ∷ vs) = do
  existing ←
      on_error
        (experiments_operation (
          context "experiments.service.get_assignment.store_get_assignment" key env experiment_id
            user_id ""))
        (s.store.get_assignment user_id experiment_id)
  assign_or_reuse s user_id key env experiment_id v vs existing

unfoldable pub get_assignment : Service → String → String → String → Exec World ExperimentVariant
unfolding assign_among
get_assignment s user_id key env =
    if user_id =s "" then raise (experiments (invalid_user_id user_id)) else (do
      x ← get_experiment_or_err s key env
      variants ←
          on_error
            (experiments_operation (
              context "experiments.service.get_assignment.store_get_variants_by_experiment_id" key
                env x.id user_id ""))
            (s.store.get_variants_by_experiment_id x.id)
      assign_among s user_id key env x.id variants)
