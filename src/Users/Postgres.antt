-- ===== src/Users/Postgres.antt =====
-- internal/users/postgres.go, with the constraints of the table users (schema.go). The CHECK on the
-- role is the type `Role`; deleting a user removes the user's assignments (ON DELETE CASCADE).
use featureflag_api.Prelude.{ℕ, zero, suc, String, Bool, Option, not}
use featureflag_api.Prelude.{[], ◌∷◌, ◌++◌, ◌=s◌, ◌||◌, ◌&&◌, if◌then◌else◌, exists_by}
use featureflag_api.Prelude.{find_by, remove_by, update_by, count_by}
use featureflag_api.Errors.{GoError, users, is_unique_violation}
use featureflag_api.Errors.Domain.{duplicate_email, not_found}
use featureflag_api.Exec.{ok, Exec, pure, raise, on_error, ◌>>=◌}
use featureflag_api.Schema.{User, Assignment}
use featureflag_api.Database.{World, Conn, Statement, constraint, run}
use featureflag_api.Users.{Store, operation, role_text}

abbrev pub has_id : String → User → Bool
has_id id u = u.id =s id

abbrev pub has_email : String → User → Bool
has_email email u = u.email =s email

-- INSERT INTO users … RETURNING id, created_at; the row as it is stored
unfoldable pub insert_user : User → Statement User
unfolding constraint
insert_user u a t =
    constraint (exists_by (has_email u.email) t.users || exists_by (has_id a.uuid) t.users) "23505"
      t
      (let row = record u { id = a.uuid; created_at = a.now } in
        (ok row, record t { users = t.users ++ row ∷ [] }))

create_error : User → GoError → GoError
unfolding operation role_text
create_error u e =
    if is_unique_violation e
    then users (duplicate_email u.email)
    else operation "users.repo.create" "" u.email (role_text u.role) e

unfoldable pub create : Conn → User → Exec World User
unfolding insert_user create_error
create conn u = on_error (create_error u) (run conn (insert_user u))

-- SELECT … FROM users WHERE id = $1, and WHERE email = $1
unfoldable pub select_user : (User → Bool) → Statement (Option User)
select_user test a t = (ok (find_by test t.users), t)

unfoldable pub get_by_id : Conn → String → Exec World (Option User)
unfolding select_user operation
get_by_id conn id =
    on_error (operation "users.repo.get_by_id" id "" "") (run conn (select_user (has_id id)))

unfoldable pub get_by_email : Conn → String → Exec World (Option User)
unfolding select_user operation
get_by_email conn email =
    on_error (operation "users.repo.get_by_email" "" email "")
      (run conn (select_user (has_email email)))

-- A row of another user that has the email.
abbrev pub taken_by_other : User → User → Bool
taken_by_other u v = not (has_id u.id v) && has_email u.email v

-- The SET clause leaves `created_at`.
abbrev pub set_columns : User → User → User
set_columns u row = record u { id = row.id; created_at = row.created_at }

-- UPDATE users SET … WHERE id = $3; the number of rows affected
unfoldable pub update_user : User → Statement ℕ
unfolding constraint
update_user u a t =
    constraint (exists_by (has_id u.id) t.users && exists_by (taken_by_other u) t.users) "23505" t (
      (
        ok (count_by (has_id u.id) t.users),
        record t { users = update_by (has_id u.id) (set_columns u) t.users },
      ))

-- `if n == 0 { return &NotFoundError{ID: id} }`
unfoldable pub require_rows : String → ℕ → Exec World Unit
require_rows id zero = raise (users (not_found id ""))
require_rows id (suc n) = pure tt

unfoldable pub update : Conn → User → Exec World Unit
unfolding update_user operation role_text require_rows
update conn u = do
  n ←
      on_error (operation "users.repo.update" u.id u.email (role_text u.role))
        (run conn (update_user u))
  require_rows u.id n

abbrev pub of_user : String → Assignment → Bool
of_user id a = a.user_id =s id

-- DELETE FROM users WHERE id = $1, with ON DELETE CASCADE; the number of rows affected
unfoldable pub delete_user : String → Statement ℕ
delete_user id a t = (
  ok (count_by (has_id id) t.users),
  record t {
    users = remove_by (has_id id) t.users;
    experiment_assignments =
        if exists_by (has_id id) t.users
        then remove_by (of_user id) t.experiment_assignments
        else t.experiment_assignments;
  },
)

unfoldable pub delete : Conn → String → Exec World Unit
unfolding delete_user operation require_rows
delete conn id = do
  n ← on_error (operation "users.repo.delete" id "" "") (run conn (delete_user id))
  require_rows id n

unfoldable pub postgres_store : Conn → Store
unfolding create get_by_id get_by_email update delete
postgres_store conn = record {
  create = create conn;
  get_by_id = get_by_id conn;
  get_by_email = get_by_email conn;
  update = update conn;
  delete = delete conn;
}
