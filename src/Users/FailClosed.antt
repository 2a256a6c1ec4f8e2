-- ===== src/Users/FailClosed.antt =====
-- The audited mutations of internal/users/service.go over the PostgreSQL stores, as a whole.
use featureflag_api.Prelude.{String, none, some, ◌≡◌, refl}
use featureflag_api.Exec.{Exec, ◌>>=◌}
use featureflag_api.Exec.Triple.{After, Triple, Triple-pure, Triple-bind, Triple_mono, Triple_given}
use featureflag_api.Auth.{Context, actor_id_from_context}
use featureflag_api.Audit.{entity_user, action_create, action_update}
use featureflag_api.Audit.Postgres
use featureflag_api.Audit
use featureflag_api.Audit.Recorded.{
  Attributed, Triple-prepare_write_tx, Triple-Attributed, Idle-RolledBack,
}
use featureflag_api.Schema.{Tables, User}
use featureflag_api.Database.{World, on_tx}
use featureflag_api.Database.Atomic.{InTx, At, Untouched, Idle, Committed, RolledBack}
use featureflag_api.Model
use featureflag_api.Model.{CreateUserInput, UpdateUserInput}
use featureflag_api.Users
use featureflag_api.Users.Postgres.{postgres_store}
use featureflag_api.Users.Service.{
  Bcrypt, new_service_with_audit, user_to_model, create_user_with_store, update_user_with_store,
}
use featureflag_api.Users.Mutations.{
  AuditTxContext, prepare_audit_tx, audited_change, create_user, update_user,
}
use featureflag_api.Users.Effects.{CreatedFrom, UpdatedFrom, create-CreatedFrom, update-UpdatedFrom}

-- `PrepareWriteTx` gives the actor of the context and the stores of the transaction.
abbrev pub PreparedFor : Context → AuditTxContext → Type 0
PreparedFor ctx tx =
    (actor_id_from_context ctx ≡ some tx.actor_id)
    × (tx.store ≡ postgres_store on_tx)
    × (tx.audit ≡ Audit.Postgres.postgres_store on_tx)

pub prepare-Triple :
    (c : Tables) (ctx : Context)
    → Triple
        (Idle c)
        (prepare_audit_tx new_service_with_audit ctx Audit.Postgres.postgres_handle)
        (λ tx w. PreparedFor ctx tx × At c c w)
        (Idle c)
unfolding prepare_audit_tx new_service_with_audit
prepare-Triple c ctx =
    Triple-bind _ _ (Triple-prepare_write_tx c (λ t. t ≡ c) refl ctx)
      (λ p. Triple-pure _ (λ w h. ((h.0.0, refl, h.0.1), h.1)))

-- What is committed: the change, and one audit entry of the actor for the user.
abbrev pub UserChange : Context → String → (User → Tables → Type 0) → Model.User → Tables → Type 0
UserChange ctx action Q = Attributed ctx Q user_to_model entity_user (λ u. u.id) action

module _ (c : Tables) (ctx : Context) (action : String) (Q : User → Tables → Type 0)
    (change : Users.Store → Exec World User)
    (ensures : Triple
      (At c c)
      (change (postgres_store on_tx))
      (λ a. InTx c (Q a))
      (Untouched c)) where
  audited_change-Triple :
      (tx : AuditTxContext)
      → PreparedFor ctx tx
      → Triple
          (At c c)
          (audited_change tx action change)
          (Committed (UserChange ctx action Q))
          (RolledBack c (UserChange ctx action Q))
  unfolding audited_change
  audited_change-Triple tx p =
      Triple-Attributed c (λ t. t ≡ c) Q user_to_model entity_user (λ u. u.id) action ctx
        tx.actor_id tx.audit p.0 p.2 (change tx.store) (rw p.1 ensures)

  audited-Triple :
      Triple
        (Idle c)
        (prepare_audit_tx new_service_with_audit ctx Audit.Postgres.postgres_handle >>= λ tx.
          audited_change tx action change)
        (Committed (UserChange ctx action Q))
        (RolledBack c (UserChange ctx action Q))
  audited-Triple =
      Triple-bind _ _ (Triple_mono (λ tx w h. h) (Idle-RolledBack c _) (prepare-Triple c ctx))
        (λ tx. Triple_given (audited_change-Triple tx))

create_user-Triple :
    (bcrypt : Bcrypt) (c : Tables) (ctx : Context) (input : CreateUserInput)
    → let R = UserChange ctx action_create (CreatedFrom bcrypt c input) in
      Triple
        (Idle c)
        (create_user bcrypt new_service_with_audit ctx input)
        (Committed R)
        (RolledBack c R)
unfolding create_user new_service_with_audit
create_user-Triple bcrypt c ctx input =
    audited-Triple c ctx action_create (CreatedFrom bcrypt c input)
      (λ store. create_user_with_store bcrypt store input) (create-CreatedFrom c c bcrypt input)

update_user-Triple :
    (bcrypt : Bcrypt) (c : Tables) (ctx : Context) (input : UpdateUserInput)
    → let R = UserChange ctx action_update (UpdatedFrom bcrypt c input) in
      Triple
        (Idle c)
        (update_user bcrypt new_service_with_audit ctx input)
        (Committed R)
        (RolledBack c R)
unfolding update_user new_service_with_audit
update_user-Triple bcrypt c ctx input =
    audited-Triple c ctx action_update (UpdatedFrom bcrypt c input)
      (λ store. update_user_with_store bcrypt store input) (update-UpdatedFrom c c bcrypt input)

pub create_user_fail_closed :
    (bcrypt : Bcrypt) (w : World) (ctx : Context) (input : CreateUserInput)
    → w.pending ≡ none
    → let R = UserChange ctx action_create (CreatedFrom bcrypt w.committed input) in
      let out = create_user bcrypt new_service_with_audit ctx input w in
      After (Committed R) (RolledBack w.committed R) out.0 out.1
create_user_fail_closed bcrypt w ctx input idle =
    (create_user-Triple bcrypt w.committed ctx input).at w
      (record { committed = refl; pending = idle })

pub update_user_fail_closed :
    (bcrypt : Bcrypt) (w : World) (ctx : Context) (input : UpdateUserInput)
    → w.pending ≡ none
    → let R = UserChange ctx action_update (UpdatedFrom bcrypt w.committed input) in
      let out = update_user bcrypt new_service_with_audit ctx input w in
      After (Committed R) (RolledBack w.committed R) out.0 out.1
update_user_fail_closed bcrypt w ctx input idle =
    (update_user-Triple bcrypt w.committed ctx input).at w
      (record { committed = refl; pending = idle })
