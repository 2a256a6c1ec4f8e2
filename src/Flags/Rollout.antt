-- ===== src/Flags/Rollout.antt =====
-- Percentage and attribute rollout: internal/flags/service.go and internal/flags/attribute.go.
use featureflag_api.Prelude.{ℕ, ◌≤◌, ◌≡◌, refl, ◌↔◌, String, Bool, true}
use featureflag_api.Prelude.{false, Option, none, some, List, [], ◌∷◌, ◌++◌, arith, All, exists_by}
use featureflag_api.Prelude.{◌&&◌, ltb}
use featureflag_api.Prelude.Int.{ℤ, pos, negsuc, atoi}
use featureflag_api.Exec.{Result, ok, err}
use featureflag_api.Hash.{hash_to_bucket, hash_to_bucket-lt}
use featureflag_api.Schema.{RuleType, Rule}
use featureflag_api.Flags.Rules.{rule_type_eq}
use featureflag_api.Flags.Evaluate.{
  AttributeCondition, check_percentage, evaluate_percentage_rule, evaluate_percentage_rules,
  evaluate_attribute_rule, evaluate_attribute_rules,
}

check_percentage_mono :
    (user low high : String) (p q : ℕ)
    → p ≤ q
    → q ≤ 100
    → check_percentage user low (some (pos p)) ≡ ok true
    → check_percentage user high (some (pos q)) ≡ ok true
unfolding check_percentage
check_percentage_mono user low high p q le bound on = ground arith

-- Raising the percentage never switches a user off: a user whom a rule of percentage p lets in is
-- let in by every rule of a percentage q with p ≤ q ≤ 100.
pub evaluate_percentage_rule_mono :
    (user low high : String) (p q : ℕ)
    → atoi low ≡ some (pos p)
    → atoi high ≡ some (pos q)
    → p ≤ q
    → q ≤ 100
    → evaluate_percentage_rule user low ≡ ok true
    → evaluate_percentage_rule user high ≡ ok true
unfolding evaluate_percentage_rule
evaluate_percentage_rule_mono user low high p q l h le bound on =
    rw h (check_percentage_mono user low high p q le bound (rw l at on))

-- The values that the code accepts.
abbrev pub IsPercentage : Option ℤ → Type 0
IsPercentage none = ⊥
IsPercentage (some (pos n)) = n ≤ 100
IsPercentage (some (negsuc n)) = ⊥

check_percentage_iff :
    (user value : String) (o : Option ℤ)
    → ((b : Bool) × (check_percentage user value o ≡ ok b)) ↔ IsPercentage o
unfolding check_percentage
check_percentage_iff user value none = (λ h. cc (h.1), λ h. absurd h)
check_percentage_iff user value (some (pos n)) =
    (λ h. ground (arith, h.1), λ h. (ltb (hash_to_bucket user) n, ground arith))
check_percentage_iff user value (some (negsuc n)) = (λ h. cc (h.1), λ h. absurd h)

-- A percentage rule gives an answer, for every user, exactly when its value is an integer from 0 to
-- 100; on every other value it gives an error.
pub evaluate_percentage_rule_iff :
    (user value : String)
    → ((b : Bool) × (evaluate_percentage_rule user value ≡ ok b)) ↔ IsPercentage (atoi value)
unfolding evaluate_percentage_rule
evaluate_percentage_rule_iff user value = check_percentage_iff user value (atoi value)

-- A rule of 0 percent lets nobody in and a rule of 100 percent lets everybody in.
pub evaluate_percentage_rule_ends :
    (user zero_value full_value : String)
    → atoi zero_value ≡ some (pos 0)
    → atoi full_value ≡ some (pos 100)
    → (evaluate_percentage_rule user zero_value ≡ ok false)
      × (evaluate_percentage_rule user full_value ≡ ok true)
unfolding evaluate_percentage_rule check_percentage
evaluate_percentage_rule_ends user zero_value full_value z f =
    (rw z (ground arith), rw f (ground (arith, hash_to_bucket-lt user)))

-- Rules that the loop passes over: none is a percentage rule.
abbrev pub NoPercentage : List Rule → Type 0
NoPercentage = All (λ r. rule_type_eq r.rule_type RuleType.percentage ≡ false)

-- With several percentage rules the first one decides alone: what stands before it (no percentage
-- rule) and after it has no effect.
pub evaluate_percentage_rules_first :
    (user : String) (before after : List Rule) (rule : Rule)
    → NoPercentage before
    → rule.rule_type ≡ RuleType.percentage
    → evaluate_percentage_rules user (before ++ rule ∷ after)
      ≡ evaluate_percentage_rule user rule.value
unfolding evaluate_percentage_rules
evaluate_percentage_rules_first user [] after rule n e = rw e
evaluate_percentage_rules_first user (r ∷ before) after rule n e =
    rw n.0 (evaluate_percentage_rules_first user before after rule n.1 e)

module _ (unmarshal : String → Option AttributeCondition) where
  abbrev is_attribute : Rule → Bool
  is_attribute r = rule_type_eq r.rule_type RuleType.attribute

  abbrev answer : Result Bool → Bool
  answer (ok b) = b
  answer (err e) = false

  -- The rule is an attribute rule and matches the user.
  abbrev pub rule_matches : String → Option String → Rule → Bool
  rule_matches user email r =
      is_attribute r && answer (evaluate_attribute_rule unmarshal user email r.value)

  -- The rule has a value that the evaluation understands.
  abbrev pub IsEvaluable : String → Option String → Rule → Type 0
  IsEvaluable user email r =
      (b : Bool) × (evaluate_attribute_rule unmarshal user email r.value ≡ ok b)

  -- If every rule can be evaluated for the user, the attribute rules switch the flag on exactly when
  -- some attribute rule among them matches, so their order does not matter.
  pub evaluate_attribute_rules-any :
      (user : String) (email : Option String) (rules : List Rule)
      → All (IsEvaluable user email) rules
      → evaluate_attribute_rules unmarshal user email rules
        ≡ ok (exists_by (rule_matches user email) rules)
  unfolding evaluate_attribute_rules exists_by
  evaluate_attribute_rules-any user email [] h = refl
  evaluate_attribute_rules-any user email (r ∷ rules) h =
      ground (arith, h.0.1, evaluate_attribute_rules-any user email rules h.1)
