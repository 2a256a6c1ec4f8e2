-- ===== src/Examples/Mutations.antt =====
-- Audited mutations by the user ann, on a server on which every statement works.
use featureflag_api.Prelude.{true, false, none, some, [], ◌∷◌, refl}
use featureflag_api.Exec.Triple.{After}
use featureflag_api.Audit.{entity_feature_flag, action_delete}
use featureflag_api.Audit.Recorded.{Attributed}
use featureflag_api.Database.Atomic.{Committed, RolledBack}
use featureflag_api.Model
use featureflag_api.Model.{CreateFlagInput, UpdateFlagInput, RuleInput}
use featureflag_api.Flags.Service.{new_service_with_audit}
use featureflag_api.Flags.Delete.{delete_flag}
use featureflag_api.Flags.Changes.{DeletedFrom}
use featureflag_api.Flags.FailClosed.{delete_flag_fail_closed}
use featureflag_api.Examples.{world, by_ann, one_flag}

abbrev pub new_checkout : CreateFlagInput
new_checkout = record {
  key = "new_checkout";
  description = none;
  environment = "prod";
  rollout_strategy = none;
  rules = some (record { rule_type = Model.RolloutRuleType.percentage; value = "10" }) ∷ [];
}

abbrev pub off : UpdateFlagInput
off = record { key = "dark_mode"; environment = some "prod"; enabled = false; rules = some [] }

delete_flag_fail_closed_example :
    let R =
      Attributed by_ann
        (DeletedFrom one_flag "dark_mode" "prod")
        (λ _. true)
        entity_feature_flag
        (λ id. id)
        action_delete in
    let out = delete_flag new_service_with_audit by_ann "dark_mode" "prod" world in
    After (Committed R) (RolledBack one_flag R) out.0 out.1
delete_flag_fail_closed_example = delete_flag_fail_closed world by_ann "dark_mode" "prod" refl
