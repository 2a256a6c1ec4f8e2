-- ===== src/Flags.antt =====
-- internal/flags: the store interface (store.go) and the service over it. The PostgreSQL store, the
-- rule checks, the evaluation and the service are the modules below.
pub mod Rules
pub mod Evaluate
pub mod Postgres
pub mod Service
pub mod Delete
pub mod Effects
pub mod Changes
pub mod Scope
pub mod FailClosed
pub mod Rollout
pub mod Decision
pub mod Consistency
pub mod Integrity
pub mod Taken
pub mod Success
use featureflag_api.Prelude.{String, Option, List}
use featureflag_api.Errors.{GoError, flags_operation}
use featureflag_api.Exec.{Exec}
use featureflag_api.Schema.{Flag, Rule}
use featureflag_api.Database.{World}

-- `Store`
pub record Store : Type 0 where
  pub create : Flag → Exec World Flag
  pub get_by_key_and_environment : String → String → Exec World (Option Flag)
  pub update : Flag → Exec World Unit
  pub delete : String → Exec World Unit
  pub get_rules_by_flag_id : String → Exec World (List Rule)
  pub replace_rules_by_flag_id : String → List Rule → Exec World Unit

-- `&OperationError{Op: …, Key: …, Environment: …, FlagID: …, Cause: err}`
unfoldable pub operation : String → String → String → String → GoError → GoError
operation op key environment flag_id =
    flags_operation (record { op = op; key = key; environment = environment; flag_id = flag_id })
