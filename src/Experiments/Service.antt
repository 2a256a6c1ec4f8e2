-- ===== src/Experiments/Service.antt =====
-- internal/experiments/service.go over the stores.
use featureflag_api.Prelude.{String, Option, none, some, List, [], ◌∷◌, ◌=s◌, if◌then◌else◌}
use featureflag_api.Errors.{GoError, plain, experiments, experiments_operation}
use featureflag_api.Errors.Domain.{duplicate_experiment, experiment_not_found, variant_not_found}
use featureflag_api.Exec.{Exec, pure, raise, on_error, ◌>>=◌, ◌>>◌}
use featureflag_api.Auth.{Context}
use featureflag_api.Audit
use featureflag_api.Audit.{entity_experiment, action_create}
use featureflag_api.Audit.Postgres
use featureflag_api.Audit.Write.{prepare_write_tx, write_entry}
use featureflag_api.Schema.{Experiment, Variant}
use featureflag_api.Database.{World, on_db, on_tx, commit, with_rollback}
use featureflag_api.Model
use featureflag_api.Model.{ExperimentVariantInput, CreateExperimentInput, ExperimentVariant}
use featureflag_api.Experiments.{Store, context}
use featureflag_api.Experiments.Weights.{validate_variant_weights}
use featureflag_api.Experiments.Postgres.{postgres_store, store_begin_tx}

-- `begin_tx` is what the type assertion to `TxStarter` finds.
pub record Service : Type 0 where
  pub store : Store
  pub with_tx : Option Store
  pub begin_tx : Option (Exec World Unit)
  pub audit : Option Audit.Handle

-- `NewService` and `NewServiceWithAudit` over the PostgreSQL stores.
unfoldable pub new_service : Service
unfolding postgres_store store_begin_tx
new_service = record {
  store = postgres_store on_db;
  with_tx = some (postgres_store on_tx);
  begin_tx = some (store_begin_tx on_db);
  audit = none;
}

unfoldable pub new_service_with_audit : Service
unfolding new_service Audit.Postgres.postgres_handle
new_service_with_audit = record new_service { audit = some Audit.Postgres.postgres_handle }

unfoldable pub experiment_to_model : Experiment → Model.Experiment
experiment_to_model x = record { id = x.id; key = x.key; environment = x.environment }

unfoldable pub variant_to_model : Variant → ExperimentVariant
variant_to_model v = record {
  id = v.id;
  experiment_id = v.experiment_id;
  name = v.name;
  weight = v.weight;
}

-- `auditTxContext`
pub record AuditTxContext : Type 0 where
  pub actor_id : String
  pub store : Store
  pub audit : Audit.Store

unfoldable pub prepare_with : Context → Audit.Handle → Option Store → Exec World AuditTxContext
prepare_with ctx h none = raise (plain "audit: experiments store is not tx-aware")
prepare_with ctx h (some store) = do
  (actor, audit_store) ← prepare_write_tx ctx h
  pure (record { actor_id = actor; store = store; audit = audit_store })

unfoldable pub prepare_audit_tx : Service → Context → Audit.Handle → Exec World AuditTxContext
unfolding prepare_with
prepare_audit_tx s ctx h = prepare_with ctx h s.with_tx

-- `if err := …; err != nil { return nil, err }`
unfoldable pub check : Option GoError → Exec World Unit
check none = pure tt
check (some e) = raise e

unfoldable pub unused : String → String → Option Experiment → Exec World Unit
unused key env none = pure tt
unused key env (some x) = raise (experiments (duplicate_experiment key env))

unfoldable pub ensure_unique_experiment_with_store : Store → String → String → Exec World Unit
unfolding unused
ensure_unique_experiment_with_store store key env = do
  existing ←
      on_error
        (experiments_operation (
          context "experiments.service.ensure_unique_experiment.store_get_by_key_and_environment"
            key env "" "" ""))
        (store.get_experiment_by_key_and_environment key env)
  unused key env existing

abbrev pub new_variant : String → ExperimentVariantInput → Variant
new_variant experiment_id v = record {
  id = "";
  experiment_id = experiment_id;
  name = v.name;
  weight = v.weight;
}

unfoldable pub persist_variants_with_store :
    Store → String → List ExperimentVariantInput → Exec World Unit
persist_variants_with_store store experiment_id [] = pure tt
persist_variants_with_store store experiment_id (v ∷ vs) = do
  on_error
      (experiments_operation
        (record (context "experiments.service.create_experiment.store_create_variant" "" ""
          experiment_id "" "") { variant_name = v.name; variant_weight = v.weight }))
      (store.create_variant (new_variant experiment_id v))
  persist_variants_with_store store experiment_id vs

unfoldable pub create_experiment_with_store : Store → CreateExperimentInput → Exec World Experiment
unfolding check ensure_unique_experiment_with_store persist_variants_with_store
create_experiment_with_store store input = do
  check (validate_variant_weights input.variants)
  ensure_unique_experiment_with_store store input.key input.environment
  created ←
      on_error
        (experiments_operation (
          context "experiments.service.create_experiment.store_create_experiment" input.key
            input.environment "" "" ""))
        (store.create_experiment
          (record { id = ""; key = input.key; environment = input.environment }))
  persist_variants_with_store store created.id input.variants
  pure created

-- The rest of an audited creation, under `defer Rollback`.
unfoldable pub audited_create : AuditTxContext → CreateExperimentInput → Exec World Model.Experiment
audited_create tx input = with_rollback (do
  created ← create_experiment_with_store tx.store input
  write_entry tx.audit entity_experiment created.id action_create tx.actor_id
  commit
  pure (experiment_to_model created))

-- Without an audit store: in a transaction of its own if the store can, and directly if not.
unfoldable pub unaudited_create :
    Store
    → Option Store
    → Option (Exec World Unit)
    → CreateExperimentInput
    → Exec World Model.Experiment
unaudited_create store (some tx_store) (some begin_tx) input = do
  begin_tx
  with_rollback (do
    created ← create_experiment_with_store tx_store input
    commit
    pure (experiment_to_model created))
unaudited_create store _ _ input = do
  created ← create_experiment_with_store store input
  pure (experiment_to_model created)

unfoldable pub create_by :
    Service → Context → CreateExperimentInput → Option Audit.Handle → Exec World Model.Experiment
unfolding audited_create unaudited_create
create_by s ctx input (some h) = do tx ← prepare_audit_tx s ctx h; audited_create tx input
create_by s ctx input none = unaudited_create s.store s.with_tx s.begin_tx input

unfoldable pub create_experiment :
    Service → Context → CreateExperimentInput → Exec World Model.Experiment
unfolding create_by
create_experiment s ctx input = create_by s ctx input s.audit

unfoldable pub found : String → String → Option Experiment → Exec World Experiment
found key env none = raise (experiments (experiment_not_found key env))
found key env (some x) = pure x

-- The lookup of `GetExperiment` and of `getExperimentOrErr`, which differ in the operation's name.
unfoldable pub lookup_experiment : String → Service → String → String → Exec World Experiment
unfolding found
lookup_experiment op s key env = do
  x ←
      on_error (experiments_operation (context op key env "" "" ""))
        (s.store.get_experiment_by_key_and_environment key env)
  found key env x

unfoldable pub get_experiment : Service → String → String → Exec World Model.Experiment
unfolding lookup_experiment
get_experiment s key env = do
  x ←
      lookup_experiment "experiments.service.get_experiment.store_get_by_key_and_environment" s key
        env
  pure (experiment_to_model x)

unfoldable pub get_experiment_or_err : Service → String → String → Exec World Experiment
unfolding lookup_experiment
get_experiment_or_err s key env =
    lookup_experiment "experiments.service.get_experiment_or_err.store_get_by_key_and_environment" s
      key env

unfoldable pub variant_by_id : String → List Variant → Exec World ExperimentVariant
variant_by_id id [] = raise (experiments (variant_not_found id "" ""))
variant_by_id id (v ∷ vs) = if v.id =s id then pure (variant_to_model v) else variant_by_id id vs
