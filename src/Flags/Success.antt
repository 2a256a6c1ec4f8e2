-- ===== src/Flags/Success.antt =====
-- The audited `CreateFlag` and `DeleteFlag` of internal/flags/service.go on a server that works.
use featureflag_api.Prelude.{ℕ, suc, String, true, false, some, ◌≡◌, find_by, count_by}
use featureflag_api.Prelude.{refl, none, List, [], ◌∷◌, arith, exists_by, ◌=s◌}
use featureflag_api.Exec.{ok}
use featureflag_api.Auth.{Context, actor_id_from_context}
use featureflag_api.Audit.Postgres.{
  postgres_handle, insert_entry, store_begin_tx, postgres_store as audit_store,
  create as create_entry,
}
use featureflag_api.Audit.Write.{prepare_write_tx, with_actor, begin_write, write_entry}
use featureflag_api.Schema.{Flag, Entry, RolloutStrategy}
use featureflag_api.Database.{World, constraint, begin_tx, run, commit, with_rollback}
use featureflag_api.Database.Reading.{Works}
use featureflag_api.Flags.Postgres.{
  at_key, has_id, postgres_store, get_by_key_and_environment, select_flag, delete, require_rows,
  delete_flag as delete_row, create, insert_flag,
}
use featureflag_api.Flags.Service.{
  new_service_with_audit, prepare_audit_tx, get_flag_or_err_with_store, found, create_flag,
  create_flag_with_store, audited_change, unused, ensure_unique_flag_with_store,
  persist_rules_for_new_flag, new_flag,
}
use featureflag_api.Model.{CreateFlagInput}
use featureflag_api.Flags.Rules.{resolve_strategy_for_create, flag_to_model}
use featureflag_api.Flags.Delete.{delete_flag, delete_flag_with_store_and_id}

-- On a server that works, an audited `DeleteFlag` by a known actor succeeds for every flag that is
-- there, if the ID that the server draws for the audit entry is new.
pub delete_flag_succeeds :
    (w : World) (ctx : Context) (key env actor : String) (flag : Flag) (others : ℕ)
    → Works w
    → actor_id_from_context ctx ≡ some actor
    → find_by (at_key key env) w.committed.feature_flags ≡ some flag
    → count_by (has_id flag.id) w.committed.feature_flags ≡ suc others
    → exists_by (λ (e : Entry). e.id =s (w.answers 3).uuid) w.committed.audit_logs ≡ false
    → (delete_flag new_service_with_audit ctx key env w).0 ≡ ok true
unfolding delete_flag new_service_with_audit prepare_audit_tx prepare_write_tx with_actor
    begin_write postgres_handle store_begin_tx begin_tx delete_flag_with_store_and_id
    get_flag_or_err_with_store found postgres_store get_by_key_and_environment select_flag delete
    delete_row require_rows run write_entry audit_store create_entry insert_entry constraint commit
    with_rollback
delete_flag_succeeds w ctx key env actor flag others works known stored there fresh =
    rw (known, works 0, works 1, stored, works 2, there, works 3, fresh, works 4)

find_by-none :
    (key env : String) (flags : List Flag)
    → exists_by (at_key key env) flags ≡ false
    → find_by (at_key key env) flags ≡ none
unfolding find_by exists_by
find_by-none key env [] h = refl
find_by-none key env (f ∷ flags) h = ground (arith, find_by-none key env flags)

-- On a server that works, an audited `CreateFlag` of a flag without rules by a known actor succeeds
-- for a key that is free in the environment, if the IDs that the server draws are new. It replies
-- with the new flag, under the ID of the new row.
pub create_flag_succeeds :
    (w : World) (ctx : Context) (input : CreateFlagInput) (actor : String)
    (strategy : RolloutStrategy)
    → Works w
    → actor_id_from_context ctx ≡ some actor
    → input.rules ≡ []
    → resolve_strategy_for_create input ≡ ok strategy
    → exists_by (at_key input.key input.environment) w.committed.feature_flags ≡ false
    → exists_by (has_id (w.answers 2).uuid) w.committed.feature_flags ≡ false
    → exists_by (λ (e : Entry). e.id =s (w.answers 3).uuid) w.committed.audit_logs ≡ false
    → (create_flag new_service_with_audit ctx input w).0
      ≡ ok (flag_to_model (record (new_flag input strategy) { id = (w.answers 2).uuid }))
unfolding create_flag new_service_with_audit prepare_audit_tx prepare_write_tx with_actor
    begin_write postgres_handle store_begin_tx begin_tx audited_change create_flag_with_store
    ensure_unique_flag_with_store unused persist_rules_for_new_flag postgres_store
    get_by_key_and_environment select_flag create insert_flag run write_entry audit_store
    create_entry insert_entry constraint commit with_rollback flag_to_model
create_flag_succeeds w ctx input actor strategy works known plain resolved free new_id new_entry =
    rw (
      known,
      works 0,
      works 1,
      find_by-none input.key input.environment w.committed.feature_flags free,
      resolved,
      works 2,
      free,
      new_id,
      plain,
      works 3,
      new_entry,
      works 4,
    )
