-- ===== src/Experiments.antt =====
-- internal/experiments: the store interface (store.go); the weights and the assignment of a
-- variant, the PostgreSQL store and the service are the modules below.
pub mod Weights
pub mod Assign
pub mod Postgres
pub mod Service
pub mod GetAssignment
pub mod Distribution
pub mod Sticky
pub mod Effects
pub mod FailClosed
pub mod Integrity
use featureflag_api.Prelude.{String, Option, List}
use featureflag_api.Prelude.Int.{pos}
use featureflag_api.Errors.Domain.{ExperimentsOperation}
use featureflag_api.Exec.{Exec}
use featureflag_api.Schema.{Experiment, Variant, Assignment}
use featureflag_api.Database.{World}

-- `Store`
pub record Store : Type 0 where
  pub create_experiment : Experiment → Exec World Experiment
  pub get_experiment_by_key_and_environment : String → String → Exec World (Option Experiment)
  pub get_experiment_by_id : String → Exec World (Option Experiment)
  pub create_variant : Variant → Exec World Variant
  pub get_variants_by_experiment_id : String → Exec World (List Variant)
  pub get_assignment : String → String → Exec World (Option Assignment)
  pub upsert_assignment : Assignment → Exec World Unit

-- An `OperationError` with the fields that most uses set.
abbrev pub context : String → String → String → String → String → String → ExperimentsOperation
context op key environment experiment_id user_id variant_id = record {
  op = op;
  key = key;
  environment = environment;
  experiment_id = experiment_id;
  user_id = user_id;
  variant_id = variant_id;
  variant_name = "";
  variant_weight = pos 0;
}
