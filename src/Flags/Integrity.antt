-- ===== src/Flags/Integrity.antt =====
-- The rules in the tables and the strategies of their flags: what the changes of the flags keep.
pub mod Changes
use mathlib.Core.List.Memᴰ
use mathlib.Core.List.{Memᴰ}
use featureflag_api.Prelude.{String, true, false, Option, none, some, List, [], ◌∷◌, ◌=s◌}
use featureflag_api.Prelude.{◌≡◌, refl, sym, ap, ◌∙◌, ◌⊎◌, inl, inr, Bool-cases, eq_iff, subst}
use featureflag_api.Prelude.{exists_by, remove_by, update_by}
use featureflag_api.Prelude.Rows.{
  remove_by-Memᴰ, Memᴰ-remove_by, find_by-Memᴰ, exists_by-false, Memᴰ-exists_by, update_by-Memᴰ,
  Memᴰ-update_by_left, Memᴰ-update_by_picked,
}
use featureflag_api.Schema.{RolloutStrategy, Tables, Flag, Rule}
use featureflag_api.Model.{RuleInput, CreateFlagInput, UpdateFlagInput}
use featureflag_api.Flags.Postgres.{has_id, of_flag, at_key, set_columns}
use featureflag_api.Flags.Rules.{rule_type_to_strategy, rule_inputs_to_rules}
use featureflag_api.Flags.Consistency.{
  AllFor, resolve_strategy_for_create-AllFor, strategy_for_update-AllFor,
}
use featureflag_api.Flags.Effects.{IsStored, RulesReplaced}
use featureflag_api.Flags.Changes.{RulesSet, CreatedFrom, RulesUpdated, UpdatedFrom, DeletedFrom}

-- Each rule belongs to a flag, and is of the type of the strategy of each flag with the ID.
pub record RulesFit (t : Tables) : Type 0 where
  pub owned :
      (r : Rule) → Memᴰ r t.flag_rules → (f : Flag) × Memᴰ f t.feature_flags × (r.flag_id ≡ f.id)
  pub fits :
      (r : Rule) (f : Flag)
      → Memᴰ r t.flag_rules
      → Memᴰ f t.feature_flags
      → r.flag_id ≡ f.id
      → rule_type_to_strategy r.rule_type ≡ f.rollout_strategy

-- The rows of other flags and their rules are those of before, and what has the ID goes with the
-- strategy.
record ChangedAt (before t : Tables) (id : String) (strategy : RolloutStrategy) : Type 0 where
  rules_are :
      (r : Rule)
      → Memᴰ r t.flag_rules
      → (Memᴰ r before.flag_rules × (r.flag_id =s id ≡ false))
        ⊎ ((r.flag_id ≡ id) × (rule_type_to_strategy r.rule_type ≡ strategy))
  flags_are :
      (f : Flag)
      → Memᴰ f t.feature_flags
      → (Memᴰ f before.feature_flags × (f.id =s id ≡ false))
        ⊎ ((f.id ≡ id) × (f.rollout_strategy ≡ strategy))
  others_stay :
      (f : Flag) → Memᴰ f before.feature_flags → f.id =s id ≡ false → Memᴰ f t.feature_flags
  has_owner :
      (r : Rule)
      → Memᴰ r t.flag_rules
      → r.flag_id ≡ id
      → (f : Flag) × Memᴰ f t.feature_flags × (f.id ≡ id)

is_not : {a b : String} → a =s b ≡ false → ¬ (a ≡ b)
is_not {a} {b} differ e = cc (sym ((eq_iff a b).1 e) ∙ differ)

ChangedAt-RulesFit :
    (before t : Tables) (id : String) (strategy : RolloutStrategy)
    → RulesFit before
    → ChangedAt before t id strategy
    → RulesFit t
ChangedAt-RulesFit before t id strategy h g = record {
  owned = λ r m. elim (g.rules_are r m) [
    | inl old ↦
        let o = h.owned r old.0 in
        (o.0, g.others_stay o.0 o.1 (subst (λ x. x =s id ≡ false) o.2 old.1), o.2)
    | inr new ↦ let o = g.has_owner r m new.0 in (o.0, o.1, new.0 ∙ sym o.2)
  ];
  fits = λ r f m n e. elim (g.rules_are r m) [
    | inl old ↦ elim (g.flags_are f n) [
      | inl stays ↦ h.fits r f old.0 stays.0 e
      | inr changed ↦ absurd (is_not old.1 (e ∙ changed.0))
    ]
    | inr new ↦ elim (g.flags_are f n) [
      | inl stays ↦ absurd (is_not stays.1 (sym e ∙ new.0))
      | inr changed ↦ new.1 ∙ sym changed.1
    ]
  ];
}

stored-fits :
    (id : String) (strategy : RolloutStrategy) (rules stored : List Rule) (r : Rule)
    → IsStored id rules stored
    → AllFor strategy rules
    → Memᴰ r stored
    → (r.flag_id ≡ id) × (rule_type_to_strategy r.rule_type ≡ strategy)
stored-fits id strategy [] [] r s a m = elim m [ ]
stored-fits id strategy [] (x ∷ stored) r s a m = elim s [ ]
stored-fits id strategy (q ∷ rules) [] r s a m = elim s [ ]
stored-fits id strategy (q ∷ rules) (x ∷ stored) r s a (Memᴰ.head e) = (
  ap (λ (y : Rule). y.flag_id) e ∙ s.0,
  ap (λ (y : Rule). rule_type_to_strategy y.rule_type) e ∙ ap rule_type_to_strategy s.1 ∙ a.0,
)
stored-fits id strategy (q ∷ rules) (x ∷ stored) r s a (Memᴰ.tail m) =
    stored-fits id strategy rules stored r s.3 a.1 m

-- The rules after a replacement.
RulesReplaced-rules :
    (before t : Tables) (id : String) (strategy : RolloutStrategy) (rules : List Rule)
    → RulesReplaced before id rules t
    → AllFor strategy rules
    → (r : Rule) → Memᴰ r t.flag_rules
    → (Memᴰ r before.flag_rules × (r.flag_id =s id ≡ false))
      ⊎ ((r.flag_id ≡ id) × (rule_type_to_strategy r.rule_type ≡ strategy))
RulesReplaced-rules before t id strategy rules h a r m =
    let n = subst (λ (u : Tables). Memᴰ r u.flag_rules) h.tables_are m in
    elim (Memᴰ.append_cases (remove_by (of_flag id) before.flag_rules) n) [
      | inl kept ↦ inl (remove_by-Memᴰ (of_flag id) r before.flag_rules kept)
      | inr new ↦ inr (stored-fits id strategy rules h.stored r h.are_stored a new)
    ]
