-- ===== src/Examples/Rollout.antt =====
-- The percentage and the attribute rules at the users u1 (bucket 35) and u2 (bucket 54).
use featureflag_api.Prelude.{◌≡◌, refl, ◌↔◌, String, Bool, true, false, Option, none, some}
use featureflag_api.Prelude.{[], ◌∷◌, arith, bytes, exists_by, ◌=s◌, if◌then◌else◌}
use featureflag_api.Prelude.Int.{pos, atoi}
use featureflag_api.Exec.{ok}
use featureflag_api.Hash.{hash_to_bucket, fnv32a}
use featureflag_api.Schema.{Rule, RuleType}
use featureflag_api.Flags.Evaluate.{
  AttributeCondition, check_percentage, evaluate_percentage_rule, evaluate_attribute_rule,
  evaluate_attribute_rules, evaluate_condition, evaluate_suffix, evaluate_in, attribute_value,
  listed,
}
use featureflag_api.Flags.Rollout.{
  evaluate_percentage_rule_mono, evaluate_percentage_rule_iff, evaluate_percentage_rule_ends,
  evaluate_attribute_rules-any, IsPercentage,
}

u1_on : evaluate_percentage_rule "u1" "50" ≡ ok true
unfolding evaluate_percentage_rule check_percentage hash_to_bucket fnv32a bytes atoi
u1_on = refl

u2_off : evaluate_percentage_rule "u2" "50" ≡ ok false
unfolding evaluate_percentage_rule check_percentage hash_to_bucket fnv32a bytes atoi
u2_off = refl

fifty : atoi "50" ≡ some (pos 50)
unfolding atoi
fifty = refl

seventy : atoi "70" ≡ some (pos 70)
unfolding atoi
seventy = refl

no_percent : atoi "0" ≡ some (pos 0)
unfolding atoi
no_percent = refl

hundred : atoi "100" ≡ some (pos 100)
unfolding atoi
hundred = refl

evaluate_percentage_rule_mono_example : evaluate_percentage_rule "u1" "70" ≡ ok true
evaluate_percentage_rule_mono_example =
    evaluate_percentage_rule_mono "u1" "50" "70" 50 70 fifty seventy (omega arith) (omega arith)
      u1_on

evaluate_percentage_rule_iff_example :
    ((b : Bool) × (evaluate_percentage_rule "u2" "50" ≡ ok b)) ↔ IsPercentage (atoi "50")
evaluate_percentage_rule_iff_example = evaluate_percentage_rule_iff "u2" "50"

evaluate_percentage_rule_ends_example :
    (evaluate_percentage_rule "u1" "0" ≡ ok false) × (evaluate_percentage_rule "u1" "100" ≡ ok true)
evaluate_percentage_rule_ends_example =
    evaluate_percentage_rule_ends "u1" "0" "100" no_percent hundred

abbrev suffix_rule : Rule
suffix_rule = record {
  id = "rule-2";
  flag_id = "flag-1";
  rule_type = RuleType.attribute;
  value = "suffix @example.org";
}

abbrev listed_rule : Rule
listed_rule = record {
  id = "rule-3";
  flag_id = "flag-1";
  rule_type = RuleType.attribute;
  value = "in u7 u2";
}

-- A decoder that knows the two values above.
abbrev decode : String → Option AttributeCondition
decode text =
    if text =s "suffix @example.org"
    then some (record { attribute = "email"; op = "suffix"; value = "@example.org"; values = [] })
    else if text =s "in u7 u2"
    then some (record { attribute = "userId"; op = "in"; value = ""; values = "u7" ∷ "u2" ∷ [] })
    else none

suffix_fails : evaluate_attribute_rule decode "u2" none suffix_rule.value ≡ ok false
unfolding evaluate_attribute_rule evaluate_condition evaluate_suffix attribute_value
suffix_fails = refl

listed_matches : evaluate_attribute_rule decode "u2" none listed_rule.value ≡ ok true
unfolding evaluate_attribute_rule evaluate_condition evaluate_in attribute_value listed
listed_matches = refl

evaluate_attribute_rules-any_example :
    evaluate_attribute_rules decode "u2" none (suffix_rule ∷ listed_rule ∷ []) ≡ ok true
unfolding evaluate_attribute_rule evaluate_condition evaluate_suffix evaluate_in attribute_value
    listed exists_by
evaluate_attribute_rules-any_example =
    evaluate_attribute_rules-any decode "u2" none (suffix_rule ∷ listed_rule ∷ [])
      ((false, suffix_fails), ((true, listed_matches), tt))
