-- ===== src/Users/Service.antt =====
-- internal/users/service.go over a store: what the mutations do, the lookups and the login. bcrypt
-- (internal/auth/password.go) is a library: `Bcrypt` has its two functions.
use featureflag_api.Prelude.{String, Bool, true, false, Option, none, some}
use mathlib.Core.Option
use featureflag_api.Prelude.{◌=s◌, if◌then◌else◌}
use featureflag_api.Errors.{GoError, wrapped, users, as_user_not_found}
use featureflag_api.Errors.Domain.{duplicate_email, not_found, invalid_credentials}
use featureflag_api.Exec.{Result, ok, err, Exec, pure, raise, lift, on_error, ◌>>=◌, ◌>>◌}
use featureflag_api.Audit
use featureflag_api.Audit.Postgres
use featureflag_api.Schema.{User, Role}
use featureflag_api.Database.{World, on_db, on_tx}
use featureflag_api.Model
use featureflag_api.Model.{CreateUserInput, UpdateUserInput, role_string}
use featureflag_api.Users.{Store, operation, role_text}
use featureflag_api.Users.Postgres.{postgres_store}

-- `HashPassword` may fail; `PasswordMatches` takes the hash first.
pub record Bcrypt : Type 0 where
  pub hash_password : String → Result String
  pub password_matches : String → String → Bool

pub record Service : Type 0 where
  pub store : Store
  pub with_tx : Option Store
  pub audit : Option Audit.Handle

-- `NewService` and `NewServiceWithAudit` over the PostgreSQL stores.
unfoldable pub new_service : Service
unfolding postgres_store
new_service = record {
  store = postgres_store on_db;
  with_tx = some (postgres_store on_tx);
  audit = none;
}

unfoldable pub new_service_with_audit : Service
unfolding new_service Audit.Postgres.postgres_handle
new_service_with_audit = record new_service { audit = some Audit.Postgres.postgres_handle }

unfoldable pub role_from_model : Model.Role → Role
role_from_model Model.Role.admin = Role.admin
role_from_model Model.Role.developer = Role.developer
role_from_model Model.Role.viewer = Role.viewer

unfoldable pub role_to_model : Role → Model.Role
role_to_model Role.admin = Model.Role.admin
role_to_model Role.developer = Model.Role.developer
role_to_model Role.viewer = Model.Role.viewer

unfoldable pub user_to_model : User → Model.User
unfolding role_to_model
user_to_model u = record {
  id = u.id;
  email = u.email;
  role = role_to_model u.role;
  created_at = u.created_at;
}

unfoldable pub unused : String → Option User → Exec World Unit
unused email none = pure tt
unused email (some u) = raise (users (duplicate_email email))

unfoldable pub ensure_unique_email_with_store : Store → String → Exec World Unit
unfolding unused operation
ensure_unique_email_with_store store email = do
  existing ←
      on_error (operation "users.service.ensure_unique_email.store_get_by_email" "" email "")
        (store.get_by_email email)
  unused email existing

-- `GetUser` and `GetUserByEmail`
unfoldable pub get_user : Service → String → Exec World (Option Model.User)
unfolding operation user_to_model
get_user s id = do
  u ← on_error (operation "users.service.get_user.store_get_by_id" id "" "") (s.store.get_by_id id)
  pure (Option.map user_to_model u)

unfoldable pub get_user_by_email : Service → String → Exec World (Option Model.User)
unfolding operation user_to_model
get_user_by_email s email = do
  u ←
      on_error (operation "users.service.get_user_by_email.store_get_by_email" "" email "")
        (s.store.get_by_email email)
  pure (Option.map user_to_model u)

-- `deleteUserWithStore`: a user that is not there is no error.
unfoldable pub deleted_reply : Result (Unit {0}) → (GoError → GoError) → Result Bool
deleted_reply (ok _) f = ok true
deleted_reply (err e) f = if as_user_not_found e then ok false else err (f e)

unfoldable pub delete_user_with_store : Store → String → Exec World Bool
unfolding deleted_reply operation
delete_user_with_store store id w = (
  deleted_reply (store.delete id w).0 (operation "users.service.delete_user.store_delete" id "" ""),
  (store.delete id w).1,
)

unfoldable pub found : String → Option User → Exec World User
found id none = raise (users (not_found id ""))
found id (some u) = pure u

module _ (bcrypt : Bcrypt) where
  hashed : User → Result String → Result User
  hashed u (ok hash) = ok (record u { password_hash = some hash })
  hashed u (err e) = err (wrapped "hash password" e)

  -- The user comes back with the hash that the code assigns.
  unfoldable pub set_password_if_provided : User → Option String → Result User
  unfolding hashed
  set_password_if_provided u none = ok u
  set_password_if_provided u (some password) =
      if password =s "" then ok u else hashed u (bcrypt.hash_password password)

  abbrev pub new_user : CreateUserInput → User
  new_user input = record {
    id = "";
    email = input.email;
    role = role_from_model input.role;
    password_hash = none;
    created_at = 0;
  }

  unfoldable pub create_user_with_store : Store → CreateUserInput → Exec World User
  unfolding ensure_unique_email_with_store set_password_if_provided operation role_string
  create_user_with_store store input = do
    ensure_unique_email_with_store store input.email
    user ← lift (set_password_if_provided (new_user input) input.password)
    on_error
        (operation "users.service.create_user.store_create" "" input.email (role_string input.role))
        (store.create user)

  abbrev with_email : Option String → User → User
  with_email none u = u
  with_email (some email) u = record u { email = email }

  abbrev with_role : Option Model.Role → User → User
  with_role none u = u
  with_role (some role) u = record u { role = role_from_model role }

  unfoldable pub apply_update_fields_to_user : User → UpdateUserInput → Result User
  unfolding set_password_if_provided role_from_model
  apply_update_fields_to_user u input =
      set_password_if_provided (with_role input.role (with_email input.email u)) input.password

  unfoldable pub update_user_with_store : Store → UpdateUserInput → Exec World User
  unfolding apply_update_fields_to_user found operation role_text
  update_user_with_store store input = do
    u ←
        on_error (operation "users.service.update_user.store_get_by_id" input.id "" "")
          (store.get_by_id input.id)
    existing ← found input.id u
    user ← lift (apply_update_fields_to_user existing input)
    on_error
        (operation "users.service.update_user.store_update" user.id user.email
          (role_text user.role))
        (store.update user)
    pure user

  unfoldable pub check_password :
      String → String → User → Option String → Exec World (String × String)
  check_password email password u none = raise (users (invalid_credentials email))
  check_password email password u (some hash) =
      if bcrypt.password_matches hash password
      then pure (u.id, role_text u.role)
      else raise (users (invalid_credentials email))

  unfoldable pub check_user : String → String → Option User → Exec World (String × String)
  unfolding check_password
  check_user email password none = raise (users (invalid_credentials email))
  check_user email password (some u) = check_password email password u u.password_hash

  -- The user ID and the role for the token.
  unfoldable pub login : Service → String → String → Exec World (String × String)
  unfolding check_user operation role_text
  login s email password = do
    u ←
        on_error (operation "users.service.login.store_get_by_email" "" email "")
          (s.store.get_by_email email)
    check_user email password u
