-- ===== src/Flags/Service.antt =====
-- internal/flags/service.go: the mutations, with and without an audit store, and the evaluation of
-- a flag. The service holds a store, what the type assertion to `TxAwareStore` finds (the store of
-- the open transaction), and the audit store if there is one.
use featureflag_api.Prelude.{String, false, Option, none, some, List, [], ◌∷◌}
use featureflag_api.Prelude.{◌=s◌, if◌then◌else◌}
use featureflag_api.Errors.{plain, flags}
use featureflag_api.Errors.Domain.{duplicate_key, not_found}
use featureflag_api.Exec.{Exec, pure, raise, lift, on_error, ◌>>=◌, ◌>>◌}
use featureflag_api.Auth.{Context}
use featureflag_api.Audit
use featureflag_api.Audit.{entity_feature_flag, action_create, action_update}
use featureflag_api.Audit.Postgres
use featureflag_api.Audit.Write.{prepare_write_tx, write_entry}
use featureflag_api.Schema.{RolloutStrategy, Flag}
use featureflag_api.Database.{World, on_db, on_tx, commit, with_rollback}
use featureflag_api.Model.{RuleInput, CreateFlagInput, UpdateFlagInput, FeatureFlag}
use featureflag_api.Flags.{Store, operation}
use featureflag_api.Flags.Rules.{
  rule_inputs_to_rules, resolve_strategy_for_create, strategy_for_update, flag_to_model,
}
use featureflag_api.Flags.Postgres.{postgres_store}

pub record Service : Type 0 where
  pub store : Store
  pub with_tx : Option Store
  pub audit : Option Audit.Handle

abbrev pub default_environment : String
default_environment = "dev"

-- `NewService` and `NewServiceWithAudit` over the PostgreSQL stores.
unfoldable pub new_service : Service
unfolding postgres_store
new_service = record {
  store = postgres_store on_db;
  with_tx = some (postgres_store on_tx);
  audit = none;
}

unfoldable pub new_service_with_audit : Service
unfolding new_service Audit.Postgres.postgres_handle
new_service_with_audit = record new_service { audit = some Audit.Postgres.postgres_handle }

-- `auditTxContext`
pub record AuditTxContext : Type 0 where
  pub actor_id : String
  pub store : Store
  pub audit : Audit.Store

prepare_with : Context → Audit.Handle → Option Store → Exec World AuditTxContext
prepare_with ctx h none = raise (plain "audit: flags store is not tx-aware")
prepare_with ctx h (some store) = do
  (actor, audit_store) ← prepare_write_tx ctx h
  pure (record { actor_id = actor; store = store; audit = audit_store })

unfoldable pub prepare_audit_tx : Service → Context → Audit.Handle → Exec World AuditTxContext
unfolding prepare_with
prepare_audit_tx s ctx h = prepare_with ctx h s.with_tx

unfoldable pub unused : String → String → Option Flag → Exec World Unit
unused key env none = pure tt
unused key env (some f) = raise (flags (duplicate_key key env))

unfoldable pub ensure_unique_flag_with_store : Store → String → String → Exec World Unit
unfolding unused operation
ensure_unique_flag_with_store store key env = do
  existing ←
      on_error
        (operation "flags.service.ensure_unique_flag.store_get_by_key_and_environment" key env "")
        (store.get_by_key_and_environment key env)
  unused key env existing

unfoldable pub persist_rules_for_new_flag :
    Store → String → List (Option RuleInput) → Exec World Unit
unfolding operation
persist_rules_for_new_flag store flag_id [] = pure tt
persist_rules_for_new_flag store flag_id (r ∷ rules) =
    on_error (operation "flags.service.create_flag.replace_rules_by_flag_id" "" "" flag_id)
      (store.replace_rules_by_flag_id flag_id (rule_inputs_to_rules flag_id (r ∷ rules)))

-- The row that `CreateFlag` asks for; the database sets `ID` and `CreatedAt`.
abbrev pub new_flag : CreateFlagInput → RolloutStrategy → Flag
new_flag input strategy = record {
  id = "";
  key = input.key;
  description = input.description;
  enabled = false;
  environment = input.environment;
  rollout_strategy = strategy;
  created_at = 0;
}

unfoldable pub create_flag_with_store : Store → CreateFlagInput → Exec World Flag
unfolding ensure_unique_flag_with_store persist_rules_for_new_flag operation
create_flag_with_store store input = do
  ensure_unique_flag_with_store store input.key input.environment
  strategy ← lift (resolve_strategy_for_create input)
  created ←
      on_error (operation "flags.service.create_flag.store_create" input.key input.environment "")
        (store.create (new_flag input strategy))
  persist_rules_for_new_flag store created.id input.rules
  pure created

-- The rest of an audited mutation, under `defer Rollback`: the change, its entry, the commit.
unfoldable pub audited_change :
    AuditTxContext → String → (Store → Exec World Flag) → Exec World FeatureFlag
audited_change tx action change = with_rollback (do
  flag ← change tx.store
  write_entry tx.audit entity_feature_flag flag.id action tx.actor_id
  commit
  pure (flag_to_model flag))

create_by : Service → Context → CreateFlagInput → Option Audit.Handle → Exec World FeatureFlag
create_by s ctx input none = do
  created ← create_flag_with_store s.store input
  pure (flag_to_model created)
create_by s ctx input (some h) = do
  tx ← prepare_audit_tx s ctx h
  audited_change tx action_create (λ store. create_flag_with_store store input)

unfoldable pub create_flag : Service → Context → CreateFlagInput → Exec World FeatureFlag
unfolding create_by
create_flag s ctx input = create_by s ctx input s.audit

unfoldable pub found : String → String → Option Flag → Exec World Flag
found key env none = raise (flags (not_found key env ""))
found key env (some f) = pure f

unfoldable pub get_flag_or_err_with_store : Store → String → String → Exec World Flag
unfolding found operation
get_flag_or_err_with_store store key env = do
  flag ←
      on_error
        (operation "flags.service.get_flag_or_err.store_get_by_key_and_environment" key env "")
        (store.get_by_key_and_environment key env)
  found key env flag

-- The flag comes back with the strategy that the code assigns to it.
unfoldable pub apply_rules_update_with_store :
    Store → Flag → Option (List (Option RuleInput)) → Exec World Flag
unfolding operation
apply_rules_update_with_store store flag none = pure flag
apply_rules_update_with_store store flag (some []) = do
  on_error
      (operation "flags.service.update_flag.replace_rules_by_flag_id.clear" flag.key
        flag.environment flag.id)
      (store.replace_rules_by_flag_id flag.id [])
  pure (record flag { rollout_strategy = RolloutStrategy.none })
apply_rules_update_with_store store flag (some (r ∷ rules)) = do
  strategy ← lift (strategy_for_update flag.rollout_strategy (r ∷ rules))
  on_error
      (operation "flags.service.update_flag.replace_rules_by_flag_id" flag.key flag.environment
        flag.id)
      (store.replace_rules_by_flag_id flag.id (rule_inputs_to_rules flag.id (r ∷ rules)))
  pure (record flag { rollout_strategy = strategy })

abbrev pub environment_or_default : Option String → String
environment_or_default none = default_environment
environment_or_default (some env) = if env =s "" then default_environment else env

unfoldable pub update_flag_with_store : Store → UpdateFlagInput → Exec World Flag
unfolding get_flag_or_err_with_store apply_rules_update_with_store operation
update_flag_with_store store input = do
  flag ← get_flag_or_err_with_store store input.key (environment_or_default input.environment)
  updated ←
      apply_rules_update_with_store store (record flag { enabled = input.enabled }) input.rules
  on_error
      (operation "flags.service.update_flag.store_update" updated.key updated.environment
        updated.id)
      (store.update updated)
  pure updated

update_by : Service → Context → UpdateFlagInput → Option Audit.Handle → Exec World FeatureFlag
update_by s ctx input none = do
  updated ← update_flag_with_store s.store input
  pure (flag_to_model updated)
update_by s ctx input (some h) = do
  tx ← prepare_audit_tx s ctx h
  audited_change tx action_update (λ store. update_flag_with_store store input)

unfoldable pub update_flag : Service → Context → UpdateFlagInput → Exec World FeatureFlag
unfolding update_by
update_flag s ctx input = update_by s ctx input s.audit
