-- ===== src/Users/Mutations.antt =====
-- internal/users/service.go: the mutations with and without an audit store.
use featureflag_api.Prelude.{String, Bool, true, false, Option, none, some}
use featureflag_api.Errors.{plain}
use featureflag_api.Exec.{ok, Exec, pure, raise, ◌>>=◌, ◌>>◌}
use featureflag_api.Auth.{Context}
use featureflag_api.Audit
use featureflag_api.Audit.{entity_user, action_create, action_update, action_delete}
use featureflag_api.Audit.Write.{prepare_write_tx, write_entry}
use featureflag_api.Schema.{User}
use featureflag_api.Database.{World, commit, rollback, with_rollback}
use featureflag_api.Model
use featureflag_api.Model.{CreateUserInput, UpdateUserInput}
use featureflag_api.Users.{Store}
use featureflag_api.Users.Service.{
  Bcrypt, Service, user_to_model, create_user_with_store, update_user_with_store,
  delete_user_with_store,
}

-- `auditTxContext`
pub record AuditTxContext : Type 0 where
  pub actor_id : String
  pub store : Store
  pub audit : Audit.Store

prepare_with : Context → Audit.Handle → Option Store → Exec World AuditTxContext
prepare_with ctx h none = raise (plain "audit: users store is not tx-aware")
prepare_with ctx h (some store) = do
  (actor, audit_store) ← prepare_write_tx ctx h
  pure (record { actor_id = actor; store = store; audit = audit_store })

unfoldable pub prepare_audit_tx : Service → Context → Audit.Handle → Exec World AuditTxContext
unfolding prepare_with
prepare_audit_tx s ctx h = prepare_with ctx h s.with_tx

-- The rest of an audited creation or update, under `defer Rollback`.
unfoldable pub audited_change :
    AuditTxContext → String → (Store → Exec World User) → Exec World Model.User
audited_change tx action change = with_rollback (do
  user ← change tx.store
  write_entry tx.audit entity_user user.id action tx.actor_id
  commit
  pure (user_to_model user))

-- The entry and the commit of `DeleteUser`. With no user there, the code returns before both, and
-- the deferred call rolls the transaction back.
unfoldable pub rolled_back : Exec World Bool
rolled_back w = (ok false, rollback w)

unfoldable pub finish_delete : AuditTxContext → String → Bool → Exec World Bool
finish_delete tx id false = rolled_back
finish_delete tx id true = do
  write_entry tx.audit entity_user id action_delete tx.actor_id
  commit
  pure true

unfoldable pub audited_delete : AuditTxContext → String → Exec World Bool
unfolding finish_delete rolled_back rollback
audited_delete tx id =
    with_rollback (do deleted ← delete_user_with_store tx.store id; finish_delete tx id deleted)

unfoldable pub delete_by : Service → Context → String → Option Audit.Handle → Exec World Bool
unfolding audited_delete
delete_by s ctx id none = delete_user_with_store s.store id
delete_by s ctx id (some h) = do tx ← prepare_audit_tx s ctx h; audited_delete tx id

unfoldable pub delete_user : Service → Context → String → Exec World Bool
unfolding delete_by
delete_user s ctx id = delete_by s ctx id s.audit

module _ (bcrypt : Bcrypt) where
  create_by : Service → Context → CreateUserInput → Option Audit.Handle → Exec World Model.User
  create_by s ctx input none = do
    created ← create_user_with_store bcrypt s.store input
    pure (user_to_model created)
  create_by s ctx input (some h) = do
    tx ← prepare_audit_tx s ctx h
    audited_change tx action_create (λ store. create_user_with_store bcrypt store input)

  unfoldable pub create_user : Service → Context → CreateUserInput → Exec World Model.User
  unfolding create_by
  create_user s ctx input = create_by s ctx input s.audit

  update_by : Service → Context → UpdateUserInput → Option Audit.Handle → Exec World Model.User
  update_by s ctx input none = do
    updated ← update_user_with_store bcrypt s.store input
    pure (user_to_model updated)
  update_by s ctx input (some h) = do
    tx ← prepare_audit_tx s ctx h
    audited_change tx action_update (λ store. update_user_with_store bcrypt store input)

  unfoldable pub update_user : Service → Context → UpdateUserInput → Exec World Model.User
  unfolding update_by
  update_user s ctx input = update_by s ctx input s.audit
