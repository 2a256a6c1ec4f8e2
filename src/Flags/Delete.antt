-- ===== src/Flags/Delete.antt =====
-- internal/flags/service.go: deletion and evaluation of a flag.
use featureflag_api.Prelude.{String, Bool, true, false, Option, none, some, List, [], ◌∷◌}
use featureflag_api.Prelude.{◌=s◌, if◌then◌else◌}
use featureflag_api.Errors.{flags}
use featureflag_api.Errors.Domain.{invalid_user_id}
use featureflag_api.Exec.{Exec, pure, raise, lift, on_error, ◌>>=◌, ◌>>◌}
use featureflag_api.Auth.{Context}
use featureflag_api.Audit
use featureflag_api.Audit.{entity_feature_flag, action_delete}
use featureflag_api.Audit.Write.{write_entry}
use featureflag_api.Schema.{Flag, Rule}
use featureflag_api.Database.{World, commit, with_rollback}
use featureflag_api.Model.{EvaluationContextInput}
use featureflag_api.Flags.{Store, operation}
use featureflag_api.Flags.Evaluate.{AttributeCondition, evaluate_rules_by_strategy}
use featureflag_api.Flags.Service.{
  Service, AuditTxContext, default_environment, prepare_audit_tx, get_flag_or_err_with_store,
}

-- The ID of the flag that was deleted; the Boolean of the code is `true` beside it.
unfoldable pub delete_flag_with_store_and_id : Store → String → String → Exec World String
unfolding operation
delete_flag_with_store_and_id store key env = do
  flag ← get_flag_or_err_with_store store key env
  on_error (operation "flags.service.delete_flag.store_delete" key env flag.id)
      (store.delete flag.id)
  pure flag.id

audited_delete : AuditTxContext → String → String → Exec World Bool
audited_delete tx key env = with_rollback (do
  id ← delete_flag_with_store_and_id tx.store key env
  write_entry tx.audit entity_feature_flag id action_delete tx.actor_id
  commit
  pure true)

delete_by : Service → Context → String → String → Option Audit.Handle → Exec World Bool
unfolding audited_delete
delete_by s ctx key env none = do delete_flag_with_store_and_id s.store key env; pure true
delete_by s ctx key env (some h) = do tx ← prepare_audit_tx s ctx h; audited_delete tx key env

unfoldable pub delete_flag : Service → Context → String → String → Exec World Bool
unfolding delete_by
delete_flag s ctx key env = delete_by s ctx key env s.audit

module _ (unmarshal : String → Option AttributeCondition) where
  unfoldable pub evaluate_rules : Flag → EvaluationContextInput → List Rule → Exec World Bool
  evaluate_rules flag c [] = pure true
  evaluate_rules flag c (r ∷ rules) =
      lift
        (evaluate_rules_by_strategy unmarshal flag.rollout_strategy c.user_id c.email (r ∷ rules))

  unfoldable pub evaluate_found :
      Service → String → String → EvaluationContextInput → Option Flag → Exec World Bool
  unfolding evaluate_rules operation
  evaluate_found s key env c none = pure false
  evaluate_found s key env c (some flag) =
      if flag.enabled
      then (do
        rules ←
            on_error
              (operation "flags.service.evaluate_flag.store_get_rules_by_flag_id" key env flag.id)
              (s.store.get_rules_by_flag_id flag.id)
        evaluate_rules flag c rules)
      else pure false

  unfoldable pub evaluate_flag_in_environment :
      Service → String → String → EvaluationContextInput → Exec World Bool
  unfolding evaluate_found operation
  evaluate_flag_in_environment s key env c =
      if c.user_id =s "" then raise (flags (invalid_user_id c.user_id)) else (do
        flag ←
            on_error
              (operation "flags.service.evaluate_flag.store_get_by_key_and_environment" key env "")
              (s.store.get_by_key_and_environment key env)
        evaluate_found s key env c flag)

  unfoldable pub evaluate_flag : Service → String → EvaluationContextInput → Exec World Bool
  unfolding evaluate_flag_in_environment
  evaluate_flag s key c = evaluate_flag_in_environment s key default_environment c
