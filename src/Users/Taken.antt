-- ===== src/Users/Taken.antt =====
-- `CreateUser` of internal/users/service.go for an email that is taken.
use featureflag_api.Prelude.{String, none, some, ◌≡◌, refl, sym, find_by}
use featureflag_api.Errors.{users}
use featureflag_api.Errors.Domain.{duplicate_email}
use featureflag_api.Auth.{Context, actor_id_from_context}
use featureflag_api.Audit.Postgres.{postgres_handle, store_begin_tx}
use featureflag_api.Audit.Write.{prepare_write_tx, with_actor, begin_write}
use featureflag_api.Schema.{User}
use featureflag_api.Model.{CreateUserInput}
use featureflag_api.Database.{World, begin_tx, run, with_rollback}
use featureflag_api.Database.Reading.{Works, Refuses}
use featureflag_api.Users.Postgres.{has_email, postgres_store, get_by_email, select_user}
use featureflag_api.Users.Service.{
  Bcrypt, new_service, new_service_with_audit, create_user_with_store,
  ensure_unique_email_with_store, unused,
}
use featureflag_api.Users.Mutations.{create_user, prepare_audit_tx, audited_change}

-- On a server that works and has no transaction open, `CreateUser` for an email that is taken
-- replies with the `DuplicateEmailError` of the email, not wrapped, also when the password cannot be
-- hashed. The tables stay as they are and no transaction stays open. So it is with an audit store, for
-- a known actor, and without one.
pub create_user_taken :
    (bcrypt : Bcrypt) (w : World) (ctx : Context) (input : CreateUserInput) (user : User)
    (actor : String)
    → Works w
    → w.pending ≡ none
    → actor_id_from_context ctx ≡ some actor
    → find_by (has_email input.email) w.committed.users ≡ some user
    → let taken = users (duplicate_email input.email) in
      Refuses w taken (create_user bcrypt new_service_with_audit ctx input w)
      × Refuses w taken (create_user bcrypt new_service ctx input w)
unfolding create_user new_service new_service_with_audit prepare_audit_tx prepare_write_tx
    with_actor begin_write postgres_handle store_begin_tx begin_tx audited_change
    create_user_with_store ensure_unique_email_with_store unused postgres_store get_by_email
    select_user run with_rollback
create_user_taken bcrypt w ctx input user actor works idle known there = (
  rw (known, works 0, works 1, there) (refl, record { committed = refl; pending = sym idle }),
  rw (works 0, there) (refl, record { committed = refl; pending = refl }),
)
