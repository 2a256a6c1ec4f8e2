-- ===== src/Model/Texts.antt =====
-- The texts of the enums in graph/model/models_gen.go, by `UnmarshalGQL` and `String`.
use featureflag_api.Prelude.{String, ◌≡◌, refl, ◌↔◌, ◌∙◌, ap, inl, inr, sym}
use featureflag_api.Prelude.{◌=s◌, eq_iff, if◌then◌else◌, Bool-cases}
use featureflag_api.Exec.{Result, ok}
use featureflag_api.Model.{
  Role, RolloutStrategy, RolloutRuleType, role_string, strategy_string, rule_type_string,
  role_unmarshal, strategy_unmarshal, rule_type_unmarshal,
}

-- One test of an `IsValid`: the text is the value's, or the tests go on.
if-ok :
    {A : Type 0} (s t : String) (text : A → String) (a b : A) (rest : Result A)
    → text a ≡ t
    → (if s =s t then ok a else rest) ≡ ok b
    → (rest ≡ ok b → s ≡ text b)
    → s ≡ text b
if-ok s t text a b rest e h go = elim (Bool-cases (s =s t)) [
  | inl same ↦ let value : a ≡ b = cc (rw same at h) in (eq_iff s t).0 same ∙ sym e ∙ ap text value
  | inr differ ↦ go (rw differ at h)
]

module _ (s : String) where
  role_string-role_unmarshal : (r : Role) → role_unmarshal s ≡ ok r → s ≡ role_string r
  unfolding role_unmarshal role_string
  role_string-role_unmarshal r h = if-ok s "admin" role_string Role.admin r _ refl h (λ h2.
      if-ok s "developer" role_string Role.developer r _ refl h2
        (λ h3. if-ok s "viewer" role_string Role.viewer r _ refl h3 (λ h4. cc)))

  strategy_string-strategy_unmarshal :
      (r : RolloutStrategy) → strategy_unmarshal s ≡ ok r → s ≡ strategy_string r
  unfolding strategy_unmarshal strategy_string
  strategy_string-strategy_unmarshal r h =
      if-ok s "NONE" strategy_string RolloutStrategy.none r _ refl h (λ h2.
        if-ok s "PERCENTAGE" strategy_string RolloutStrategy.percentage r _ refl h2 (λ h3.
          if-ok s "ATTRIBUTE" strategy_string RolloutStrategy.attribute r _ refl h3 (λ h4. cc)))

  rule_type_string-rule_type_unmarshal :
      (r : RolloutRuleType) → rule_type_unmarshal s ≡ ok r → s ≡ rule_type_string r
  unfolding rule_type_unmarshal rule_type_string
  rule_type_string-rule_type_unmarshal r h =
      if-ok s "PERCENTAGE" rule_type_string RolloutRuleType.percentage r _ refl h (λ h2.
        if-ok s "ATTRIBUTE" rule_type_string RolloutRuleType.attribute r _ refl h2 (λ h3. cc))

role_unmarshal-role_string : (r : Role) → role_unmarshal (role_string r) ≡ ok r
unfolding role_unmarshal role_string
role_unmarshal-role_string Role.admin = refl
role_unmarshal-role_string Role.developer = refl
role_unmarshal-role_string Role.viewer = refl

strategy_unmarshal-strategy_string :
    (r : RolloutStrategy) → strategy_unmarshal (strategy_string r) ≡ ok r
unfolding strategy_unmarshal strategy_string
strategy_unmarshal-strategy_string RolloutStrategy.none = refl
strategy_unmarshal-strategy_string RolloutStrategy.percentage = refl
strategy_unmarshal-strategy_string RolloutStrategy.attribute = refl

rule_type_unmarshal-rule_type_string :
    (r : RolloutRuleType) → rule_type_unmarshal (rule_type_string r) ≡ ok r
unfolding rule_type_unmarshal rule_type_string
rule_type_unmarshal-rule_type_string RolloutRuleType.percentage = refl
rule_type_unmarshal-rule_type_string RolloutRuleType.attribute = refl

-- For each of the three enums `UnmarshalGQL` reads a text as a value exactly when it is the text that
-- `String` writes for the value.
pub unmarshal_iff :
    (s : String) (role : Role) (strategy : RolloutStrategy) (rule_type : RolloutRuleType)
    → ((role_unmarshal s ≡ ok role) ↔ (s ≡ role_string role))
      × ((strategy_unmarshal s ≡ ok strategy) ↔ (s ≡ strategy_string strategy))
      × ((rule_type_unmarshal s ≡ ok rule_type) ↔ (s ≡ rule_type_string rule_type))
unmarshal_iff s role strategy rule_type = (
  (role_string-role_unmarshal s role, λ e. rw e (role_unmarshal-role_string role)),
  (
    strategy_string-strategy_unmarshal s strategy,
    λ e. rw e (strategy_unmarshal-strategy_string strategy),
  ),
  (
    rule_type_string-rule_type_unmarshal s rule_type,
    λ e. rw e (rule_type_unmarshal-rule_type_string rule_type),
  ),
)
