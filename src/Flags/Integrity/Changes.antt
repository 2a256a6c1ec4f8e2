-- ===== src/Flags/Integrity/Changes.antt =====
-- What the creation, the update and the deletion of a flag keep of the rules in the tables.
use mathlib.Core.List.Memᴰ
use mathlib.Core.List.{Memᴰ}
use featureflag_api.Prelude.{String, true, false, Option, none, some, List, [], ◌∷◌, ◌=s◌}
use featureflag_api.Prelude.{◌≡◌, refl, sym, ap, ◌∙◌, ◌⊎◌, inl, inr, Bool-cases, eq_iff, subst}
use featureflag_api.Prelude.{exists_by, remove_by, update_by}
use featureflag_api.Prelude.Rows.{
  remove_by-Memᴰ, Memᴰ-remove_by, find_by-Memᴰ, exists_by-false, Memᴰ-exists_by, update_by-Memᴰ,
  Memᴰ-update_by_left, Memᴰ-update_by_picked,
}
use featureflag_api.Schema.{RolloutStrategy, Tables, Flag, Rule}
use featureflag_api.Model.{RuleInput, CreateFlagInput, UpdateFlagInput}
use featureflag_api.Flags.Postgres.{has_id, of_flag, at_key, set_columns}
use featureflag_api.Flags.Rules.{rule_type_to_strategy, rule_inputs_to_rules}
use featureflag_api.Flags.Consistency.{
  AllFor, resolve_strategy_for_create-AllFor, strategy_for_update-AllFor,
}
use featureflag_api.Flags.Scope.{RulesSet-flags, RulesUpdated-flags}
use featureflag_api.Flags.Changes.{RulesSet, CreatedFrom, RulesUpdated, UpdatedFrom, DeletedFrom}
use featureflag_api.Flags.Integrity.{RulesFit, is_not, ChangedAt-RulesFit, RulesReplaced-rules}

-- Without a replacement the rules of the ID are those that fit a flag with it.
rules_of_before :
    (before : Tables) (flag : Flag)
    → RulesFit before
    → Memᴰ flag before.feature_flags
    → (r : Rule) → Memᴰ r before.flag_rules
    → (Memᴰ r before.flag_rules × (r.flag_id =s flag.id ≡ false))
      ⊎ ((r.flag_id ≡ flag.id) × (rule_type_to_strategy r.rule_type ≡ flag.rollout_strategy))
rules_of_before before flag h there r m = elim (Bool-cases (r.flag_id =s flag.id)) [
  | inl same ↦ let e = (eq_iff r.flag_id flag.id).0 same in inr (e, h.fits r flag m there e)
  | inr differ ↦ inl (m, differ)
]

-- The ID of a new flag has no rules.
fresh_id :
    (before : Tables) (id : String)
    → RulesFit before
    → exists_by (has_id id) before.feature_flags ≡ false
    → (r : Rule) → Memᴰ r before.flag_rules
    → r.flag_id =s id ≡ false
fresh_id before id h fresh r m =
    let o = h.owned r m in rw o.2 (exists_by-false (has_id id) o.0 before.feature_flags fresh o.1)

RulesSet-rules :
    (before inserted t : Tables) (id : String) (input : CreateFlagInput)
    (strategy : RolloutStrategy) (rules : List (Option RuleInput))
    → inserted.flag_rules ≡ before.flag_rules
    → ((r : Rule) → Memᴰ r before.flag_rules → r.flag_id =s id ≡ false)
    → AllFor strategy (rule_inputs_to_rules id rules)
    → RulesSet inserted id rules t
    → (r : Rule) → Memᴰ r t.flag_rules
    → (Memᴰ r before.flag_rules × (r.flag_id =s id ≡ false))
      ⊎ ((r.flag_id ≡ id) × (rule_type_to_strategy r.rule_type ≡ strategy))
RulesSet-rules before inserted t id input strategy [] same fresh a h r m =
    let n = subst (λ rs. Memᴰ r rs) (ap (λ (u : Tables). u.flag_rules) h ∙ same) m in
    inl (n, fresh r n)
RulesSet-rules before inserted t id input strategy (x ∷ rules) same fresh a h r m =
    elim (RulesReplaced-rules inserted t id strategy _ h a r m) [
      | inl old ↦ inl (subst (λ rs. Memᴰ r rs) same old.0, old.1)
      | inr new ↦ inr new
    ]

pub CreatedFrom-RulesFit :
    (before : Tables) (input : CreateFlagInput) (row : Flag) (t : Tables)
    → RulesFit before
    → CreatedFrom before input row t
    → RulesFit t
CreatedFrom-RulesFit before input row t h c =
    let flags_now =
      RulesSet-flags c.inserted t row.id input.rules c.rules_set
      ∙ ap (λ (u : Tables). u.feature_flags) c.created.tables_are in
    ChangedAt-RulesFit before t row.id c.strategy h (record {
      rules_are =
          RulesSet-rules before c.inserted t row.id input c.strategy input.rules
            (ap (λ (u : Tables). u.flag_rules) c.created.tables_are)
            (fresh_id before row.id h c.created.id_is_new)
            (resolve_strategy_for_create-AllFor row.id input c.strategy c.resolved) c.rules_set;
      flags_are = λ f m.
          elim (Memᴰ.append_cases before.feature_flags (subst (λ fs. Memᴰ f fs) flags_now m)) [
            | inl old ↦ inl (
              old,
              exists_by-false (has_id row.id) f before.feature_flags c.created.id_is_new old,
            )
            | inr new ↦
                let e = Memᴰ.eq_of_singleton new in
                inr (
                  ap (λ (g : Flag). g.id) e,
                  ap (λ (g : Flag). g.rollout_strategy) e ∙ c.created.strategy_is,
                )
          ];
      others_stay =
          λ f m differ. subst (λ fs. Memᴰ f fs) (sym flags_now) (Memᴰ.append_left (row ∷ []) m);
      has_owner = λ r m e. (
        row,
        subst (λ fs. Memᴰ row fs) (sym flags_now)
            (Memᴰ.append_right before.feature_flags (Memᴰ.head refl)),
        refl,
      );
    })

RulesUpdated-rules :
    (before t : Tables) (flag : Flag) (rules : Option (List (Option RuleInput)))
    (strategy : RolloutStrategy)
    → RulesFit before
    → Memᴰ flag before.feature_flags
    → RulesUpdated before flag.id flag.rollout_strategy rules strategy t
    → (r : Rule) → Memᴰ r t.flag_rules
    → (Memᴰ r before.flag_rules × (r.flag_id =s flag.id ≡ false))
      ⊎ ((r.flag_id ≡ flag.id) × (rule_type_to_strategy r.rule_type ≡ strategy))
RulesUpdated-rules before t flag none strategy h there u r m =
    elim (rules_of_before before flag h there r
      (subst (λ (v : Tables). Memᴰ r v.flag_rules) u.1 m)) [
        | inl old ↦ inl old
        | inr own ↦ inr (own.0, own.1 ∙ sym u.0)
      ]
RulesUpdated-rules before t flag (some []) strategy h there u r m =
    RulesReplaced-rules before t flag.id strategy [] u.1 tt r m
RulesUpdated-rules before t flag (some (x ∷ rules)) strategy h there u r m =
    RulesReplaced-rules before t flag.id strategy (rule_inputs_to_rules flag.id (x ∷ rules)) u.1
      (strategy_for_update-AllFor flag.id flag.rollout_strategy strategy x rules u.0) r m

pub UpdatedFrom-RulesFit :
    (before : Tables) (input : UpdateFlagInput) (row : Flag) (t : Tables)
    → RulesFit before
    → UpdatedFrom before input row t
    → RulesFit t
UpdatedFrom-RulesFit before input row t h u =
    let there = (find_by-Memᴰ (at_key input.key _) u.flag before.feature_flags u.found).0 in
    let same_id : row.id ≡ u.flag.id = ap (λ (f : Flag). f.id) u.row_is in
    let flags_now : t.feature_flags
        ≡ update_by (has_id row.id) (set_columns row) before.feature_flags =
      ap (λ (v : Tables). v.feature_flags) u.tables_are
      ∙ ap (update_by (has_id row.id) (set_columns row)) (
          RulesUpdated-flags before u.with_rules u.flag.id u.flag.rollout_strategy input.rules
            u.strategy u.rules_updated) in
    ChangedAt-RulesFit before t u.flag.id u.strategy h (record {
      rules_are = λ r m.
          RulesUpdated-rules before u.with_rules u.flag input.rules u.strategy h there
            u.rules_updated r (subst (λ (v : Tables). Memᴰ r v.flag_rules) u.tables_are m);
      flags_are = λ f m.
          let o =
            update_by-Memᴰ (has_id row.id) (set_columns row) f before.feature_flags
              (subst (λ fs. Memᴰ f fs) flags_now m) in
          elim o.2 [
            | inl picked ↦ inr (
              ap (λ (g : Flag). g.id) picked.1 ∙ (eq_iff o.0.id row.id).0 picked.0 ∙ same_id,
              ap (λ (g : Flag). g.rollout_strategy) picked.1
                  ∙ ap (λ (g : Flag). g.rollout_strategy) u.row_is,
            )
            | inr left ↦
                let e = sym left.1 in
                inl (
                  subst (λ g. Memᴰ g before.feature_flags) e o.1,
                  subst (λ (g : Flag). g.id =s u.flag.id ≡ false) e
                      (subst (λ i. o.0.id =s i ≡ false) same_id left.0),
                )
          ];
      others_stay = λ f m differ.
          subst (λ fs. Memᴰ f fs) (sym flags_now)
            (Memᴰ-update_by_left (has_id row.id) (set_columns row) f before.feature_flags m
              (subst (λ i. f.id =s i ≡ false) (sym same_id) differ));
      has_owner = λ r m e. (
        set_columns row u.flag,
        subst (λ fs. Memᴰ (set_columns row u.flag) fs) (sym flags_now)
            (Memᴰ-update_by_picked (has_id row.id) (set_columns row) u.flag before.feature_flags
              there ((eq_iff u.flag.id row.id).1 (sym same_id))),
        refl,
      );
    })

pub DeletedFrom-RulesFit :
    (before : Tables) (key env id : String) (t : Tables)
    → RulesFit before
    → DeletedFrom before key env id t
    → RulesFit t
DeletedFrom-RulesFit before key env id t h d =
    let there = (find_by-Memᴰ (at_key key env) d.flag before.feature_flags d.found).0 in
    let exists : exists_by (has_id id) before.feature_flags ≡ true =
      Memᴰ-exists_by (has_id id) d.flag before.feature_flags there
        ((eq_iff d.flag.id id).1 (sym d.id_is)) in
    let rules_now : t.flag_rules ≡ remove_by (of_flag id) before.flag_rules =
      ap (λ (v : Tables). v.flag_rules) d.tables_are ∙ rw exists refl in
    let flags_now : t.feature_flags ≡ remove_by (has_id id) before.feature_flags =
      ap (λ (v : Tables). v.feature_flags) d.tables_are in
    ChangedAt-RulesFit before t id RolloutStrategy.none h (record {
      rules_are = λ r m.
          inl
            (remove_by-Memᴰ (of_flag id) r before.flag_rules (subst (λ rs. Memᴰ r rs) rules_now m));
      flags_are = λ f m.
          inl (
            remove_by-Memᴰ (has_id id) f before.feature_flags
              (subst (λ fs. Memᴰ f fs) flags_now m));
      others_stay = λ f m differ.
          subst (λ fs. Memᴰ f fs) (sym flags_now)
            (Memᴰ-remove_by (has_id id) f before.feature_flags m differ);
      has_owner = λ r m e. absurd (
          is_not
            (remove_by-Memᴰ (of_flag id) r before.flag_rules
              (subst (λ rs. Memᴰ r rs) rules_now m)).1
            e);
    })
