-- ===== src/Users.antt =====
-- internal/users: the store interface (store.go), the PostgreSQL store and the service below.
pub mod Postgres
pub mod Service
pub mod Mutations
pub mod Effects
pub mod FailClosed
pub mod Deletion
pub mod SignIn
pub mod Taken
pub mod Success
use featureflag_api.Prelude.{String, Option}
use featureflag_api.Errors.{GoError, users_operation}
use featureflag_api.Exec.{Exec}
use featureflag_api.Schema.{User, Role}
use featureflag_api.Database.{World}

-- `Store`
pub record Store : Type 0 where
  pub create : User → Exec World User
  pub get_by_id : String → Exec World (Option User)
  pub get_by_email : String → Exec World (Option User)
  pub update : User → Exec World Unit
  pub delete : String → Exec World Unit

-- `string(role)`
unfoldable pub role_text : Role → String
role_text Role.admin = "admin"
role_text Role.developer = "developer"
role_text Role.viewer = "viewer"

-- `&OperationError{Op: …, ID: …, Email: …, Role: …, Cause: err}`
unfoldable pub operation : String → String → String → String → GoError → GoError
operation op id email role =
    users_operation (record { op = op; id = id; email = email; role = role })
