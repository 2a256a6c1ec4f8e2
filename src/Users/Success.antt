-- ===== src/Users/Success.antt =====
-- The audited `CreateUser` of internal/users/service.go on a server that works.
use featureflag_api.Prelude.{String, false, none, some, List, [], ◌∷◌, ◌≡◌, refl}
use featureflag_api.Prelude.{find_by, exists_by, ◌=s◌, arith}
use featureflag_api.Exec.{ok}
use featureflag_api.Auth.{Context, actor_id_from_context}
use featureflag_api.Audit.Postgres.{
  postgres_handle, insert_entry, store_begin_tx, postgres_store as audit_store,
  create as create_entry,
}
use featureflag_api.Audit.Write.{prepare_write_tx, with_actor, begin_write, write_entry}
use featureflag_api.Schema.{User, Entry}
use featureflag_api.Database.{World, constraint, begin_tx, run, commit, with_rollback}
use featureflag_api.Database.Reading.{Works}
use featureflag_api.Model
use featureflag_api.Model.{CreateUserInput}
use featureflag_api.Users.Postgres.{
  has_id, has_email, postgres_store, get_by_email, select_user, create, insert_user,
}
use featureflag_api.Users.Service.{
  Bcrypt, new_service_with_audit, create_user_with_store, ensure_unique_email_with_store, unused,
  set_password_if_provided, user_to_model, role_to_model, role_from_model,
}
use featureflag_api.Users.Mutations.{create_user, prepare_audit_tx, audited_change}

find_by-none :
    (email : String) (users : List User)
    → exists_by (has_email email) users ≡ false
    → find_by (has_email email) users ≡ none
unfolding find_by exists_by
find_by-none email [] h = refl
find_by-none email (u ∷ users) h = ground (arith, find_by-none email users)

role_to_model-role_from_model : (r : Model.Role) → role_to_model (role_from_model r) ≡ r
unfolding role_to_model role_from_model
role_to_model-role_from_model Model.Role.admin = refl
role_to_model-role_from_model Model.Role.developer = refl
role_to_model-role_from_model Model.Role.viewer = refl

-- On a server that works, an audited `CreateUser` by a known actor succeeds for an email that is
-- free and a password that can be hashed, if the IDs that the server draws are new. It replies with
-- the ID and the time of the new row and with the email and the role of the input.
pub create_user_succeeds :
    (bcrypt : Bcrypt) (w : World) (ctx : Context) (input : CreateUserInput)
    (actor password hash : String)
    → Works w
    → actor_id_from_context ctx ≡ some actor
    → input.password ≡ some password
    → password =s "" ≡ false
    → bcrypt.hash_password password ≡ ok hash
    → exists_by (has_email input.email) w.committed.users ≡ false
    → exists_by (has_id (w.answers 2).uuid) w.committed.users ≡ false
    → exists_by (λ (e : Entry). e.id =s (w.answers 3).uuid) w.committed.audit_logs ≡ false
    → (create_user bcrypt new_service_with_audit ctx input w).0
      ≡ ok (record {
        id = (w.answers 2).uuid;
        email = input.email;
        role = input.role;
        created_at = (w.answers 2).now;
      })
unfolding create_user new_service_with_audit prepare_audit_tx prepare_write_tx with_actor
    begin_write postgres_handle store_begin_tx begin_tx audited_change create_user_with_store
    ensure_unique_email_with_store unused set_password_if_provided user_to_model postgres_store
    get_by_email select_user create insert_user run write_entry audit_store create_entry
    insert_entry constraint commit with_rollback
create_user_succeeds bcrypt w ctx input actor password hash works known given full hashed free
      new_id new_entry =
    rw (
      known,
      works 0,
      works 1,
      find_by-none input.email w.committed.users free,
      given,
      full,
      hashed,
      works 2,
      free,
      new_id,
      works 3,
      new_entry,
      works 4,
      role_to_model-role_from_model input.role,
    )
