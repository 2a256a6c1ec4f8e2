-- ===== src/Experiments/FailClosed.antt =====
-- `CreateExperiment` of internal/experiments/service.go over the PostgreSQL stores, with an audit
-- store and without.
use featureflag_api.Prelude.{none, some, ◌≡◌, refl, inl}
use featureflag_api.Exec.{pure, ◌>>=◌}
use featureflag_api.Exec.Triple.{
  After, Triple, Triple-pure, Triple-bind, Triple-on_error, Triple_mono, Triple_given, Triple_under,
}
use featureflag_api.Auth.{Context, actor_id_from_context}
use featureflag_api.Audit
use featureflag_api.Audit.{entity_experiment, action_create}
use featureflag_api.Audit.Postgres
use featureflag_api.Audit.Recorded.{
  Attributed, Triple-prepare_write_tx, Triple-Attributed, Idle-RolledBack,
}
use featureflag_api.Schema.{Tables, Experiment}
use featureflag_api.Database.{World, on_tx, commit}
use featureflag_api.Database.Atomic.{
  InTx, At, Idle, Committed, RolledBack, Undecided, Triple-begin_tx, Triple-commit,
  Triple-with_rollback, InTx-mono,
}
use featureflag_api.Model
use featureflag_api.Model.{CreateExperimentInput}
use featureflag_api.Experiments.Postgres.{postgres_store, store_begin_tx}
use featureflag_api.Experiments.Service.{
  AuditTxContext, new_service, new_service_with_audit, prepare_audit_tx, experiment_to_model,
  audited_create, unaudited_create, create_by, create_experiment, create_experiment_with_store,
}
use featureflag_api.Experiments.Effects.{CreatedFrom, create-CreatedFrom}

-- `PrepareWriteTx` gives the actor of the context and the stores of the transaction.
abbrev PreparedFor : Context → AuditTxContext → Type 0
PreparedFor ctx tx =
    (actor_id_from_context ctx ≡ some tx.actor_id)
    × (tx.store ≡ postgres_store on_tx)
    × (tx.audit ≡ Audit.Postgres.postgres_store on_tx)

prepare-Triple :
    (c : Tables) (ctx : Context)
    → Triple
        (Idle c)
        (prepare_audit_tx new_service_with_audit ctx Audit.Postgres.postgres_handle)
        (λ tx w. PreparedFor ctx tx × At c c w)
        (Idle c)
unfolding prepare_audit_tx new_service_with_audit new_service
prepare-Triple c ctx =
    Triple-bind _ _ (Triple-prepare_write_tx c (λ t. t ≡ c) refl ctx)
      (λ p. Triple-pure _ (λ w h. ((h.0.0, refl, h.0.1), h.1)))

-- What is committed: the experiment with its variants, and one audit entry of the actor for it.
abbrev pub ExperimentCreation :
    Context → Tables → CreateExperimentInput → Model.Experiment → Tables → Type 0
ExperimentCreation ctx c input =
    Attributed ctx (CreatedFrom c input) experiment_to_model entity_experiment (λ x. x.id)
      action_create

-- What is committed without an audit store.
pub record Creation (c : Tables) (input : CreateExperimentInput) (reply : Model.Experiment)
    (t : Tables) : Type 0 where
  pub row : Experiment
  pub reply_is : reply ≡ experiment_to_model row
  pub created : CreatedFrom c input row t

module _ (c : Tables) (ctx : Context) (input : CreateExperimentInput) where
  audited_create-Triple :
      (tx : AuditTxContext)
      → PreparedFor ctx tx
      → Triple
          (At c c)
          (audited_create tx input)
          (Committed (ExperimentCreation ctx c input))
          (RolledBack c (ExperimentCreation ctx c input))
  unfolding audited_create
  audited_create-Triple tx p =
      Triple-Attributed c (λ t. t ≡ c) (CreatedFrom c input) experiment_to_model entity_experiment
        (λ x. x.id) action_create ctx tx.actor_id tx.audit p.0 p.2
        (create_experiment_with_store tx.store input) (rw p.1 (create-CreatedFrom c c input))

  create_experiment-Triple :
      Triple
        (Idle c)
        (create_experiment new_service_with_audit ctx input)
        (Committed (ExperimentCreation ctx c input))
        (RolledBack c (ExperimentCreation ctx c input))
  unfolding create_experiment new_service_with_audit new_service create_by
  create_experiment-Triple =
      Triple-bind _ _ (Triple_mono (λ tx w h. h) (Idle-RolledBack c _) (prepare-Triple c ctx))
        (λ tx. Triple_given (audited_create-Triple tx))

  commit-Creation :
      (row : Experiment)
      → Triple
          (InTx c (CreatedFrom c input row))
          (commit >>= λ _. pure (experiment_to_model row))
          (Committed (Creation c input))
          (Undecided c (Creation c input))
  commit-Creation row =
      Triple-bind _ _
        (Triple_under (λ w. InTx-mono (λ t h. record { row = row; reply_is = refl; created = h }))
          (Triple-commit c (Creation c input) (experiment_to_model row)))
        (λ _. Triple-pure _ (λ w h. h))

  plain_create-Triple :
      Triple
        (Idle c)
        (create_experiment new_service ctx input)
        (Committed (Creation c input))
        (RolledBack c (Creation c input))
  unfolding create_experiment new_service create_by unaudited_create store_begin_tx
  plain_create-Triple =
      Triple-bind _ _
        (Triple_mono (λ a w h. h) (Idle-RolledBack c _)
          (Triple-on_error _ _ (Triple-begin_tx c (λ t. t ≡ c) refl)))
        (λ _.
          Triple-with_rollback c (Creation c input) (λ t. t ≡ c) _
            (Triple-bind _ _ (Triple_mono (λ row w h. h) (λ w. inl) (create-CreatedFrom c c input))
              commit-Creation))

-- An audited `CreateExperiment` is all or nothing, whatever the server answers. On success the
-- weights were valid and the key free, and the committed tables are those of before with the
-- experiment, its variants in the order of the input, each with a weight that the column takes, and
-- one audit entry of the actor. On an error they are those of before, or, if the reply to the commit
-- was lost, such tables. In both cases no transaction stays open.
pub create_experiment_fail_closed :
    (w : World) (ctx : Context) (input : CreateExperimentInput)
    → w.pending ≡ none
    → let R = ExperimentCreation ctx w.committed input in
      let out = create_experiment new_service_with_audit ctx input w in
      After (Committed R) (RolledBack w.committed R) out.0 out.1
create_experiment_fail_closed w ctx input idle =
    (create_experiment-Triple w.committed ctx input).at w
      (record { committed = refl; pending = idle })

-- Without an audit store `CreateExperiment` is all or nothing as well: it begins a transaction of its
-- own, and leaves the experiment with all its variants or the committed tables of before; if the
-- reply to the commit was lost, it may be the former with an error. No transaction stays open.
pub create_experiment_atomic :
    (w : World) (ctx : Context) (input : CreateExperimentInput)
    → w.pending ≡ none
    → let R = Creation w.committed input in
      let out = create_experiment new_service ctx input w in
      After (Committed R) (RolledBack w.committed R) out.0 out.1
create_experiment_atomic w ctx input idle =
    (plain_create-Triple w.committed ctx input).at w (record { committed = refl; pending = idle })
