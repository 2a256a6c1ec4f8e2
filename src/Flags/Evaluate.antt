-- ===== src/Flags/Evaluate.antt =====
-- The rule evaluation of internal/flags/service.go and internal/flags/attribute.go. `unmarshal` is
-- `json.Unmarshal` into an `attributeCondition`, `none` its error.
use featureflag_api.Prelude.{String, Bool, true, false, Option, none, some, List, [], ◌∷◌}
use featureflag_api.Prelude.{◌=s◌, ◌||◌, ◌&&◌, not, if◌then◌else◌, has_suffix}
use featureflag_api.Prelude.Int.{ℤ, pos, is_negative, int_lt, atoi}
use featureflag_api.Errors.{flags}
use featureflag_api.Errors.Domain.{invalid_rule}
use featureflag_api.Exec.{Result, ok, err}
use featureflag_api.Hash.{hash_to_bucket}
use featureflag_api.Schema.{RolloutStrategy, RuleType, Rule}
use featureflag_api.Flags.Rules.{rule_type_eq}

pub record AttributeCondition : Type 0 where
  pub attribute : String
  pub op : String
  pub value : String
  pub values : List String

unfoldable pub check_percentage : String → String → Option ℤ → Result Bool
check_percentage user_id value none = err (flags (invalid_rule value "" "not a number"))
check_percentage user_id value (some percentage) =
    if is_negative percentage || int_lt (pos 100) percentage
    then err (flags (invalid_rule value "" "must be 0-100"))
    else ok (int_lt (pos (hash_to_bucket user_id)) percentage)

unfoldable pub evaluate_percentage_rule : String → String → Result Bool
unfolding check_percentage
evaluate_percentage_rule user_id value = check_percentage user_id value (atoi value)

unfoldable pub evaluate_percentage_rules : String → List Rule → Result Bool
evaluate_percentage_rules user_id [] = ok true
evaluate_percentage_rules user_id (rule ∷ rules) =
    if rule_type_eq rule.rule_type RuleType.percentage
    then evaluate_percentage_rule user_id rule.value
    else evaluate_percentage_rules user_id rules

unfoldable pub attribute_value : String → String → Option String → String
attribute_value attribute user_id email =
    if attribute =s "userId" || attribute =s "user_id"
    then user_id
    else if attribute =s "email"
    then elim email [ none ↦ "" | some e ↦ e ]
    else ""

unfoldable pub evaluate_suffix : String → String → String → Result Bool
evaluate_suffix attr_val suffix rule_value =
    if suffix =s ""
    then err (flags (invalid_rule rule_value "" "empty suffix"))
    else ok (not (attr_val =s "") && has_suffix attr_val suffix)

-- The loop of `evaluateIn`.
unfoldable pub listed : String → List String → Bool
listed v [] = false
listed v (w ∷ ws) = if v =s w then true else listed v ws

unfoldable pub evaluate_in : String → List String → String → Result Bool
unfolding listed
evaluate_in attr_val [] rule_value = err (flags (invalid_rule rule_value "" "empty 'in' values"))
evaluate_in attr_val (v ∷ vs) rule_value = ok (listed attr_val (v ∷ vs))

unfoldable pub evaluate_condition :
    String → Option String → String → Option AttributeCondition → Result Bool
unfolding evaluate_suffix evaluate_in attribute_value
evaluate_condition user_id email rule_value none =
    err (flags (invalid_rule rule_value "" "JSON parse failed"))
evaluate_condition user_id email rule_value (some c) =
    let attr_val = attribute_value c.attribute user_id email in
    if c.op =s "suffix"
    then evaluate_suffix attr_val c.value rule_value
    else if c.op =s "in"
    then evaluate_in attr_val c.values rule_value
    else if c.op =s "eq"
    then ok (attr_val =s c.value)
    else err (flags (invalid_rule rule_value c.op ""))

module _ (unmarshal : String → Option AttributeCondition) where
  unfoldable pub evaluate_attribute_rule : String → Option String → String → Result Bool
  unfolding evaluate_condition
  evaluate_attribute_rule user_id email rule_value =
      evaluate_condition user_id email rule_value (unmarshal rule_value)

  unfoldable pub evaluate_attribute_rules : String → Option String → List Rule → Result Bool
  evaluate_attribute_rules user_id email [] = ok false
  evaluate_attribute_rules user_id email (rule ∷ rules) =
      let rest = evaluate_attribute_rules user_id email rules in
      if rule_type_eq rule.rule_type RuleType.attribute
      then elim (evaluate_attribute_rule user_id email rule.value) [
        | err e ↦ err e
        | ok true ↦ ok true
        | ok false ↦ rest
      ]
      else rest

  unfoldable pub evaluate_rules_by_strategy :
      RolloutStrategy → String → Option String → List Rule → Result Bool
  evaluate_rules_by_strategy RolloutStrategy.percentage user_id email rules =
      evaluate_percentage_rules user_id rules
  evaluate_rules_by_strategy RolloutStrategy.attribute user_id email rules =
      evaluate_attribute_rules user_id email rules
  evaluate_rules_by_strategy RolloutStrategy.none user_id email rules = ok true
