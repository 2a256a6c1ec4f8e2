-- ===== src/Flags/Consistency.antt =====
-- The rules of a flag and its strategy: the checks of internal/flags/service.go on the rules of an
-- input, and what is stored for them.
use featureflag_api.Prelude.{String, true, Option, none, some, List, [], ◌∷◌}
use featureflag_api.Prelude.{◌≡◌, refl, ◌↔◌, ◌∙◌, ap, arith, All, Bool-cases, inl, inr, subst}
use featureflag_api.Exec.{Result, ok, err}
use featureflag_api.Schema.{RolloutStrategy, RuleType, Rule}
use featureflag_api.Model.{RuleInput, CreateFlagInput}
use featureflag_api.Flags.Rules.{
  rule_type_eq, rule_type_to_strategy, rule_input_to_rule_type, rule_inputs_to_rules, same_type_as,
  validate_rules_same_type, create_strategy_for, strategy_for_rules, resolve_strategy_for_create,
  update_strategy_for, strategy_for_update,
}

rule_type_eq_sound : (a b : RuleType) → rule_type_eq a b ≡ true → a ≡ b
rule_type_eq_sound RuleType.percentage RuleType.percentage h = refl
rule_type_eq_sound RuleType.attribute RuleType.attribute h = refl
rule_type_eq_sound RuleType.unset RuleType.unset h = refl
rule_type_eq_sound RuleType.percentage RuleType.attribute h = cc
rule_type_eq_sound RuleType.percentage RuleType.unset h = cc
rule_type_eq_sound RuleType.attribute RuleType.percentage h = cc
rule_type_eq_sound RuleType.attribute RuleType.unset h = cc
rule_type_eq_sound RuleType.unset RuleType.percentage h = cc
rule_type_eq_sound RuleType.unset RuleType.attribute h = cc

rule_type_eq_refl : (a : RuleType) → rule_type_eq a a ≡ true
rule_type_eq_refl RuleType.percentage = refl
rule_type_eq_refl RuleType.attribute = refl
rule_type_eq_refl RuleType.unset = refl

-- Every rule of the input has the type.
abbrev pub AllOf : RuleType → List (Option RuleInput) → Type 0
AllOf rt = All (λ r. rule_input_to_rule_type r ≡ rt)

same_type_as_iff :
    (rt : RuleType) (rules : List (Option RuleInput))
    → (same_type_as rt rules ≡ true) ↔ AllOf rt rules
unfolding same_type_as
same_type_as_iff rt [] = (λ h. tt, λ h. refl)
same_type_as_iff rt (r ∷ rules) =
    let i = same_type_as_iff rt rules in
    (
      λ h. elim (Bool-cases (rule_type_eq (rule_input_to_rule_type r) rt)) [
        | inl same ↦ (rule_type_eq_sound (rule_input_to_rule_type r) rt same, i.0 (rw same at h))
        | inr differ ↦ ground arith
      ],
      λ h. rw (h.0, rule_type_eq_refl rt) (i.1 h.1),
    )

-- A list of rules that is not empty passes the check exactly when all its rules have the type that
-- the check returns.
pub validate_rules_same_type_iff :
    (r : Option RuleInput) (rules : List (Option RuleInput)) (rt : RuleType)
    → (validate_rules_same_type (r ∷ rules) ≡ ok rt) ↔ AllOf rt (r ∷ rules)
unfolding validate_rules_same_type
validate_rules_same_type_iff r rules rt = (
  λ h. elim (Bool-cases (same_type_as (rule_input_to_rule_type r) rules)) [
    | inl same ↦
        let e : rule_input_to_rule_type r ≡ rt = cc (rw same at h) in
        (
          e,
          subst (λ x. AllOf x rules) e
              ((same_type_as_iff (rule_input_to_rule_type r) rules).0 same),
        )
    | inr differ ↦ ground arith
  ],
  λ h. rw (h.0, (same_type_as_iff rt rules).1 h.1),
)

-- Every rule has a type that goes with the strategy.
abbrev pub AllFor : RolloutStrategy → List Rule → Type 0
AllFor strategy = All (λ rule. rule_type_to_strategy rule.rule_type ≡ strategy)

stored-AllFor :
    (flag_id : String) (rt : RuleType) (strategy : RolloutStrategy)
    (rules : List (Option RuleInput))
    → AllOf rt rules
    → rule_type_to_strategy rt ≡ strategy
    → AllFor strategy (rule_inputs_to_rules flag_id rules)
unfolding rule_inputs_to_rules
stored-AllFor flag_id rt strategy [] h e = tt
stored-AllFor flag_id rt strategy (none ∷ rules) h e = stored-AllFor flag_id rt strategy rules h.1 e
stored-AllFor flag_id rt strategy (some r ∷ rules) h e =
    (ap rule_type_to_strategy h.0 ∙ e, stored-AllFor flag_id rt strategy rules h.1 e)

create_strategy_for-ok :
    (asked strategy : RolloutStrategy) (checked : Result RuleType)
    → create_strategy_for asked checked ≡ ok strategy
    → (rt : RuleType) × (checked ≡ ok rt) × (rule_type_to_strategy rt ≡ strategy)
unfolding create_strategy_for
create_strategy_for-ok asked strategy (err e) h = cc
create_strategy_for-ok asked strategy (ok rt) h = (rt, refl, ground arith)

update_strategy_for-ok :
    (current strategy : RolloutStrategy) (checked : Result RuleType)
    → update_strategy_for current checked ≡ ok strategy
    → (rt : RuleType) × (checked ≡ ok rt) × (rule_type_to_strategy rt ≡ strategy)
unfolding update_strategy_for
update_strategy_for-ok current strategy (err e) h = cc
update_strategy_for-ok current strategy (ok rt) h = (rt, refl, ground arith)

checked-AllFor :
    (flag_id : String) (strategy : RolloutStrategy) (r : Option RuleInput)
    (rules : List (Option RuleInput))
    → (rt : RuleType) × (validate_rules_same_type (r ∷ rules) ≡ ok rt)
      × (rule_type_to_strategy rt ≡ strategy)
    → AllFor strategy (rule_inputs_to_rules flag_id (r ∷ rules))
checked-AllFor flag_id strategy r rules h =
    stored-AllFor flag_id h.0 strategy (r ∷ rules)
      ((validate_rules_same_type_iff r rules h.0).0 h.1) h.2

created-AllFor :
    (flag_id : String) (asked strategy : RolloutStrategy) (rules : List (Option RuleInput))
    → strategy_for_rules asked rules ≡ ok strategy
    → AllFor strategy (rule_inputs_to_rules flag_id rules)
unfolding strategy_for_rules rule_inputs_to_rules
created-AllFor flag_id asked strategy [] h = tt
created-AllFor flag_id asked strategy (r ∷ rules) h =
    checked-AllFor flag_id strategy r rules (create_strategy_for-ok asked strategy _ h)

-- When the strategy of a creation resolves, every rule that the creation stores is of a type that
-- goes with this strategy.
pub resolve_strategy_for_create-AllFor :
    (flag_id : String) (input : CreateFlagInput) (strategy : RolloutStrategy)
    → resolve_strategy_for_create input ≡ ok strategy
    → AllFor strategy (rule_inputs_to_rules flag_id input.rules)
unfolding resolve_strategy_for_create
resolve_strategy_for_create-AllFor flag_id input strategy h =
    created-AllFor flag_id _ strategy input.rules h

-- When an update with rules passes the checks, every rule that it stores is of a type that goes with
-- the strategy that the flag then has.
pub strategy_for_update-AllFor :
    (flag_id : String) (current strategy : RolloutStrategy) (r : Option RuleInput)
    (rules : List (Option RuleInput))
    → strategy_for_update current (r ∷ rules) ≡ ok strategy
    → AllFor strategy (rule_inputs_to_rules flag_id (r ∷ rules))
unfolding strategy_for_update
strategy_for_update-AllFor flag_id current strategy r rules h =
    checked-AllFor flag_id strategy r rules (update_strategy_for-ok current strategy _ h)
