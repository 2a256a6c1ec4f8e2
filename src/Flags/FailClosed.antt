-- ===== src/Flags/FailClosed.antt =====
-- The audited mutations of internal/flags/service.go over the PostgreSQL stores, as a whole.
use featureflag_api.Prelude.{String, true, none, some}
use featureflag_api.Prelude.{◌≡◌, refl}
use featureflag_api.Exec.{Exec, ◌>>=◌}
use featureflag_api.Exec.Triple.{After, Triple, Triple-pure, Triple-bind, Triple_mono, Triple_given}
use featureflag_api.Auth.{Context, actor_id_from_context}
use featureflag_api.Audit.{entity_feature_flag, action_create, action_update, action_delete}
use featureflag_api.Audit
use featureflag_api.Audit.Postgres
use featureflag_api.Audit.Recorded.{
  Attributed, Triple-prepare_write_tx, Triple-Attributed, Idle-RolledBack,
}
use featureflag_api.Schema.{Tables, Flag}
use featureflag_api.Database.{World, on_tx}
use featureflag_api.Database.Atomic.{InTx, At, Untouched, Idle, Committed, RolledBack}
use featureflag_api.Model.{CreateFlagInput, UpdateFlagInput}
use featureflag_api.Flags
use featureflag_api.Flags.Postgres.{postgres_store}
use featureflag_api.Flags.Rules.{flag_to_model}
use featureflag_api.Flags.Service.{
  new_service_with_audit, AuditTxContext, prepare_audit_tx, create_flag_with_store, audited_change,
  create_flag, update_flag, update_flag_with_store,
}
use featureflag_api.Flags.Delete.{delete_flag, delete_flag_with_store_and_id}
use featureflag_api.Flags.Changes.{
  CreatedFrom, UpdatedFrom, DeletedFrom, create-CreatedFrom, update-UpdatedFrom, delete-DeletedFrom,
}

-- `PrepareWriteTx` gives the actor of the context and the stores of the transaction.
abbrev PreparedFor : Context → AuditTxContext → Type 0
PreparedFor ctx tx =
    (actor_id_from_context ctx ≡ some tx.actor_id)
    × (tx.store ≡ postgres_store on_tx)
    × (tx.audit ≡ Audit.Postgres.postgres_store on_tx)

prepare-Triple :
    (c : Tables) (ctx : Context)
    → Triple
        (Idle c)
        (prepare_audit_tx new_service_with_audit ctx Audit.Postgres.postgres_handle)
        (λ tx w. PreparedFor ctx tx × At c c w)
        (Idle c)
unfolding prepare_audit_tx new_service_with_audit
prepare-Triple c ctx =
    Triple-bind _ _ (Triple-prepare_write_tx c (λ t. t ≡ c) refl ctx)
      (λ p. Triple-pure _ (λ w h. ((h.0.0, refl, h.0.1), h.1)))

module _ (c : Tables) (ctx : Context) (action : String) (Q : Flag → Tables → Type 0)
    (change : Flags.Store → Exec World Flag)
    (ensures : Triple
      (At c c)
      (change (postgres_store on_tx))
      (λ a. InTx c (Q a))
      (Untouched c)) where
  audited_change-Triple :
      (tx : AuditTxContext)
      → PreparedFor ctx tx
      → Triple
          (At c c)
          (audited_change tx action change)
          (Committed (Attributed ctx Q flag_to_model entity_feature_flag (λ f. f.id) action))
          (RolledBack c (Attributed ctx Q flag_to_model entity_feature_flag (λ f. f.id) action))
  unfolding audited_change
  audited_change-Triple tx p =
      Triple-Attributed c (λ t. t ≡ c) Q flag_to_model entity_feature_flag (λ f. f.id) action ctx
        tx.actor_id tx.audit p.0 p.2 (change tx.store) (rw p.1 ensures)

  audited-Triple :
      Triple
        (Idle c)
        (prepare_audit_tx new_service_with_audit ctx Audit.Postgres.postgres_handle >>= λ tx.
          audited_change tx action change)
        (Committed (Attributed ctx Q flag_to_model entity_feature_flag (λ f. f.id) action))
        (RolledBack c (Attributed ctx Q flag_to_model entity_feature_flag (λ f. f.id) action))
  audited-Triple =
      Triple-bind _ _ (Triple_mono (λ tx w h. h) (Idle-RolledBack c _) (prepare-Triple c ctx))
        (λ tx. Triple_given (audited_change-Triple tx))

create_flag-Triple :
    (c : Tables) (ctx : Context) (input : CreateFlagInput)
    → Triple
        (Idle c)
        (create_flag new_service_with_audit ctx input)
        (Committed (
          Attributed ctx
            (CreatedFrom c input)
            flag_to_model
            entity_feature_flag
            (λ f. f.id)
            action_create))
        (RolledBack c (
          Attributed ctx
            (CreatedFrom c input)
            flag_to_model
            entity_feature_flag
            (λ f. f.id)
            action_create))
unfolding create_flag new_service_with_audit
create_flag-Triple c ctx input =
    audited-Triple c ctx action_create (CreatedFrom c input)
      (λ store. create_flag_with_store store input) (create-CreatedFrom c c input)

update_flag-Triple :
    (c : Tables) (ctx : Context) (input : UpdateFlagInput)
    → Triple
        (Idle c)
        (update_flag new_service_with_audit ctx input)
        (Committed (
          Attributed ctx
            (UpdatedFrom c input)
            flag_to_model
            entity_feature_flag
            (λ f. f.id)
            action_update))
        (RolledBack c (
          Attributed ctx
            (UpdatedFrom c input)
            flag_to_model
            entity_feature_flag
            (λ f. f.id)
            action_update))
unfolding update_flag new_service_with_audit
update_flag-Triple c ctx input =
    audited-Triple c ctx action_update (UpdatedFrom c input)
      (λ store. update_flag_with_store store input) (update-UpdatedFrom c c input)

delete_flag-Triple :
    (c : Tables) (ctx : Context) (key env : String)
    → Triple
        (Idle c)
        (delete_flag new_service_with_audit ctx key env)
        (Committed (
          Attributed ctx
            (DeletedFrom c key env)
            (λ _. true)
            entity_feature_flag
            (λ id. id)
            action_delete))
        (RolledBack c (
          Attributed ctx
            (DeletedFrom c key env)
            (λ _. true)
            entity_feature_flag
            (λ id. id)
            action_delete))
unfolding delete_flag new_service_with_audit
delete_flag-Triple c ctx key env =
    Triple-bind _ _ (Triple_mono (λ tx w h. h) (Idle-RolledBack c _) (prepare-Triple c ctx)) (λ tx.
      Triple_given (λ p.
        Triple-Attributed c (λ t. t ≡ c) (DeletedFrom c key env) (λ _. true) entity_feature_flag
          (λ id. id) action_delete ctx tx.actor_id tx.audit p.0 p.2
          (delete_flag_with_store_and_id tx.store key env)
          (rw p.1 (delete-DeletedFrom c c key env))))

pub create_flag_fail_closed :
    (w : World) (ctx : Context) (input : CreateFlagInput)
    → w.pending ≡ none
    → let R =
        Attributed ctx
          (CreatedFrom w.committed input)
          flag_to_model
          entity_feature_flag
          (λ f. f.id)
          action_create in
      let out = create_flag new_service_with_audit ctx input w in
      After (Committed R) (RolledBack w.committed R) out.0 out.1
create_flag_fail_closed w ctx input idle =
    (create_flag-Triple w.committed ctx input).at w (record { committed = refl; pending = idle })

pub update_flag_fail_closed :
    (w : World) (ctx : Context) (input : UpdateFlagInput)
    → w.pending ≡ none
    → let R =
        Attributed ctx
          (UpdatedFrom w.committed input)
          flag_to_model
          entity_feature_flag
          (λ f. f.id)
          action_update in
      let out = update_flag new_service_with_audit ctx input w in
      After (Committed R) (RolledBack w.committed R) out.0 out.1
update_flag_fail_closed w ctx input idle =
    (update_flag-Triple w.committed ctx input).at w (record { committed = refl; pending = idle })

-- An audited `DeleteFlag` is all or nothing, whatever the server answers. On success the flag of the
-- key and its rules are gone, and there is one audit entry of the actor for it. On an error the
-- committed tables are those of before, or, if the reply to the commit was lost, such tables. In
-- both cases no transaction stays open.
pub delete_flag_fail_closed :
    (w : World) (ctx : Context) (key env : String)
    → w.pending ≡ none
    → let R =
        Attributed ctx
          (DeletedFrom w.committed key env)
          (λ _. true)
          entity_feature_flag
          (λ id. id)
          action_delete in
      let out = delete_flag new_service_with_audit ctx key env w in
      After (Committed R) (RolledBack w.committed R) out.0 out.1
delete_flag_fail_closed w ctx key env idle =
    (delete_flag-Triple w.committed ctx key env).at w (record { committed = refl; pending = idle })
