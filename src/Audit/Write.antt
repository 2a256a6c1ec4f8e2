-- ===== src/Audit/Write.antt =====
-- internal/audit/tx_write.go, and the block that every audited mutation of the services runs in
-- its transaction.
use featureflag_api.Prelude.{String, Option, none, some}
use featureflag_api.Errors.{audit, wrapped}
use featureflag_api.Errors.Domain.{missing_actor_id, tx_starter_required, tx_aware_required}
use featureflag_api.Exec.{Exec, pure, raise, on_error, ◌>>◌}
use featureflag_api.Auth.{Context, actor_id_from_context}
use featureflag_api.Database.{World}
use featureflag_api.Audit.{Store, Handle}

unfoldable pub begin_write :
    String → Option (Exec World Unit) → Option Store → Exec World (String × Store)
begin_write actor none with_tx = raise (audit tx_starter_required)
begin_write actor (some begin_tx) none = raise (audit tx_aware_required)
begin_write actor (some begin_tx) (some store) = do begin_tx; pure (actor, store)

unfoldable pub with_actor : Option String → Handle → Exec World (String × Store)
with_actor none h = raise (audit missing_actor_id)
with_actor (some actor) h = begin_write actor h.begin_tx h.with_tx

-- `PrepareWriteTx`
unfoldable pub prepare_write_tx : Context → Handle → Exec World (String × Store)
unfolding begin_write with_actor
prepare_write_tx ctx h = with_actor (actor_id_from_context ctx) h

-- `if err := auditCtx.audit.Create(ctx, &audit.Entry{…}); err != nil { … }`
unfoldable pub write_entry : Store → String → String → String → String → Exec World Unit
write_entry store entity entity_id action actor = on_error (wrapped "audit create entry") (
    store.create (
      some (record {
        id = "";
        entity = entity;
        entity_id = entity_id;
        action = action;
        actor_id = actor;
        created_at = 0;
      })))
