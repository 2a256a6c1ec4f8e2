-- ===== src/Flags/Taken.antt =====
-- `CreateFlag` of internal/flags/service.go for a key that is taken.
use featureflag_api.Prelude.{String, none, some, ◌≡◌, refl, sym, find_by}
use featureflag_api.Errors.{flags}
use featureflag_api.Errors.Domain.{duplicate_key}
use featureflag_api.Auth.{Context, actor_id_from_context}
use featureflag_api.Audit.Postgres.{postgres_handle, store_begin_tx}
use featureflag_api.Audit.Write.{prepare_write_tx, with_actor, begin_write}
use featureflag_api.Schema.{Flag}
use featureflag_api.Model.{CreateFlagInput}
use featureflag_api.Database.{World, begin_tx, run, with_rollback}
use featureflag_api.Database.Reading.{Works, Refuses}
use featureflag_api.Flags.Postgres.{at_key, postgres_store, get_by_key_and_environment, select_flag}
use featureflag_api.Flags.Service.{
  new_service, new_service_with_audit, prepare_audit_tx, create_flag, create_flag_with_store,
  audited_change, unused, ensure_unique_flag_with_store,
}

-- On a server that works and has no transaction open, `CreateFlag` for a key that is taken in the
-- environment replies with the `DuplicateKeyError` of the key and the environment, not wrapped,
-- whatever the strategy and the rules of the input are. The tables stay as they are and no transaction
-- stays open. So it is with an audit store, for a known actor, and without one.
pub create_flag_taken :
    (w : World) (ctx : Context) (input : CreateFlagInput) (flag : Flag) (actor : String)
    → Works w
    → w.pending ≡ none
    → actor_id_from_context ctx ≡ some actor
    → find_by (at_key input.key input.environment) w.committed.feature_flags ≡ some flag
    → let taken = flags (duplicate_key input.key input.environment) in
      Refuses w taken (create_flag new_service_with_audit ctx input w)
      × Refuses w taken (create_flag new_service ctx input w)
unfolding create_flag new_service new_service_with_audit prepare_audit_tx prepare_write_tx
    with_actor begin_write postgres_handle store_begin_tx begin_tx audited_change
    create_flag_with_store ensure_unique_flag_with_store unused postgres_store
    get_by_key_and_environment select_flag run with_rollback
create_flag_taken w ctx input flag actor works idle known there = (
  rw (known, works 0, works 1, there) (refl, record { committed = refl; pending = sym idle }),
  rw (works 0, there) (refl, record { committed = refl; pending = refl }),
)
