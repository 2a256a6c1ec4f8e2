-- ===== src/Flags/Rules.antt =====
-- The rule checks and conversions of internal/flags/service.go.
use featureflag_api.Prelude.{String, Bool, true, false, Option, none, some, List, [], ◌∷◌}
use featureflag_api.Prelude.{if◌then◌else◌}
use featureflag_api.Errors.{flags}
use featureflag_api.Errors.Domain.{rules_strategy_mismatch}
use featureflag_api.Exec.{Result, ok, err}
use featureflag_api.Schema.{RolloutStrategy, RuleType, Flag, Rule}
use featureflag_api.Model
use featureflag_api.Model.{RuleInput, CreateFlagInput, FeatureFlag}

abbrev pub strategy_eq : RolloutStrategy → RolloutStrategy → Bool
strategy_eq RolloutStrategy.none RolloutStrategy.none = true
strategy_eq RolloutStrategy.percentage RolloutStrategy.percentage = true
strategy_eq RolloutStrategy.attribute RolloutStrategy.attribute = true
strategy_eq _ _ = false

abbrev pub rule_type_eq : RuleType → RuleType → Bool
rule_type_eq RuleType.percentage RuleType.percentage = true
rule_type_eq RuleType.attribute RuleType.attribute = true
rule_type_eq RuleType.unset RuleType.unset = true
rule_type_eq _ _ = false

abbrev pub rule_type_text : RuleType → String
rule_type_text RuleType.percentage = "percentage"
rule_type_text RuleType.attribute = "attribute"
rule_type_text RuleType.unset = ""

abbrev pub strategy_text : RolloutStrategy → String
strategy_text RolloutStrategy.none = "none"
strategy_text RolloutStrategy.percentage = "percentage"
strategy_text RolloutStrategy.attribute = "attribute"

unfoldable pub rollout_strategy_from_model : Option Model.RolloutStrategy → RolloutStrategy
rollout_strategy_from_model none = RolloutStrategy.none
rollout_strategy_from_model (some Model.RolloutStrategy.percentage) = RolloutStrategy.percentage
rollout_strategy_from_model (some Model.RolloutStrategy.attribute) = RolloutStrategy.attribute
rollout_strategy_from_model (some Model.RolloutStrategy.none) = RolloutStrategy.none

unfoldable pub rollout_strategy_to_model : RolloutStrategy → Model.RolloutStrategy
rollout_strategy_to_model RolloutStrategy.percentage = Model.RolloutStrategy.percentage
rollout_strategy_to_model RolloutStrategy.attribute = Model.RolloutStrategy.attribute
rollout_strategy_to_model RolloutStrategy.none = Model.RolloutStrategy.none

unfoldable pub rule_type_to_strategy : RuleType → RolloutStrategy
rule_type_to_strategy rt =
    if rule_type_eq rt RuleType.percentage
    then RolloutStrategy.percentage
    else RolloutStrategy.attribute

rule_type_from_model : Model.RolloutRuleType → RuleType
rule_type_from_model Model.RolloutRuleType.percentage = RuleType.percentage
rule_type_from_model Model.RolloutRuleType.attribute = RuleType.attribute

unfoldable pub rule_input_to_rule_type : Option RuleInput → RuleType
unfolding rule_type_from_model
rule_input_to_rule_type none = RuleType.unset
rule_input_to_rule_type (some r) = rule_type_from_model r.rule_type

unfoldable pub rule_inputs_to_rules : String → List (Option RuleInput) → List Rule
rule_inputs_to_rules flag_id [] = []
rule_inputs_to_rules flag_id (none ∷ inputs) = rule_inputs_to_rules flag_id inputs
rule_inputs_to_rules flag_id (some r ∷ inputs) =
    record {
      id = "";
      flag_id = flag_id;
      rule_type = rule_input_to_rule_type (some r);
      value = r.value;
    }
    ∷ rule_inputs_to_rules flag_id inputs

rule_type_texts : List (Option RuleInput) → List String
rule_type_texts [] = []
rule_type_texts (r ∷ rest) = rule_type_text (rule_input_to_rule_type r) ∷ rule_type_texts rest

-- The second loop of `validateRulesSameType`.
unfoldable pub same_type_as : RuleType → List (Option RuleInput) → Bool
same_type_as first [] = true
same_type_as first (r ∷ rest) =
    if rule_type_eq (rule_input_to_rule_type r) first then same_type_as first rest else false

unfoldable pub validate_rules_same_type : List (Option RuleInput) → Result RuleType
unfolding rule_type_texts same_type_as
validate_rules_same_type [] = ok RuleType.unset
validate_rules_same_type (r ∷ rest) =
    if same_type_as (rule_input_to_rule_type r) rest
    then ok (rule_input_to_rule_type r)
    else err (flags (rules_strategy_mismatch "" (rule_type_texts (r ∷ rest)) ""))

unfoldable pub create_strategy_for : RolloutStrategy → Result RuleType → Result RolloutStrategy
create_strategy_for strategy (err e) = err e
create_strategy_for strategy (ok rt) =
    if strategy_eq strategy RolloutStrategy.none
    then ok (rule_type_to_strategy rt)
    else if strategy_eq strategy (rule_type_to_strategy rt)
    then ok (rule_type_to_strategy rt)
    else err (
        flags (
          rules_strategy_mismatch "" []
            "all rules must use the same strategy: percentage or attribute"))

unfoldable pub strategy_for_rules :
    RolloutStrategy → List (Option RuleInput) → Result RolloutStrategy
unfolding create_strategy_for
strategy_for_rules strategy [] = ok strategy
strategy_for_rules strategy (r ∷ rest) =
    create_strategy_for strategy (validate_rules_same_type (r ∷ rest))

unfoldable pub resolve_strategy_for_create : CreateFlagInput → Result RolloutStrategy
unfolding strategy_for_rules
resolve_strategy_for_create input =
    strategy_for_rules (rollout_strategy_from_model input.rollout_strategy) input.rules

mismatch_message : RolloutStrategy → String
mismatch_message RolloutStrategy.percentage =
    "flag uses percentage strategy; only percentage rules are allowed"
mismatch_message RolloutStrategy.attribute =
    "flag uses attribute strategy; only attribute rules are allowed"
mismatch_message RolloutStrategy.none =
    "flag uses attribute strategy; only attribute rules are allowed"

unfoldable pub update_strategy_for : RolloutStrategy → Result RuleType → Result RolloutStrategy
unfolding mismatch_message
update_strategy_for current (err e) = err e
update_strategy_for current (ok rt) =
    if strategy_eq current RolloutStrategy.none
    then ok (rule_type_to_strategy rt)
    else if strategy_eq current (rule_type_to_strategy rt)
    then ok (rule_type_to_strategy rt)
    else err (flags (rules_strategy_mismatch (strategy_text current) [] (mismatch_message current)))

-- The checks of `applyRulesUpdateWithStore` on a rule list that is not empty: the strategy that
-- the flag has after them.
unfoldable pub strategy_for_update :
    RolloutStrategy → List (Option RuleInput) → Result RolloutStrategy
unfolding update_strategy_for
strategy_for_update current rules = update_strategy_for current (validate_rules_same_type rules)

unfoldable pub flag_to_model : Flag → FeatureFlag
flag_to_model flag = record {
  id = flag.id;
  key = flag.key;
  description = flag.description;
  enabled = flag.enabled;
  environment = flag.environment;
  rollout_strategy = rollout_strategy_to_model flag.rollout_strategy;
}
