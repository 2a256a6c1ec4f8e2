-- ===== src/Flags/Scope.antt =====
-- The changes of the flags touch no other table than feature_flags and flag_rules.
use featureflag_api.Prelude.{
  String, Option, none, some, List, [], ◌∷◌, ◌≡◌, refl, sym, ap, ◌∙◌, subst,
}
use featureflag_api.Schema.{RolloutStrategy, Tables, Flag}
use featureflag_api.Model.{RuleInput, CreateFlagInput, UpdateFlagInput}
use featureflag_api.Flags.Changes.{RulesSet, CreatedFrom, RulesUpdated, UpdatedFrom, DeletedFrom}

abbrev pub OnlyFlags : Tables → Tables → Type 0
OnlyFlags c t = t ≡ record c { feature_flags = t.feature_flags; flag_rules = t.flag_rules }

OnlyFlags-trans : (c u t : Tables) → OnlyFlags c u → OnlyFlags u t → OnlyFlags c t
OnlyFlags-trans c u t o p =
    p
    ∙ ap (λ (v : Tables). record v { feature_flags = t.feature_flags; flag_rules = t.flag_rules }) o

RulesSet-OnlyFlags :
    (c inserted t : Tables) (id : String) (rules : List (Option RuleInput))
    → OnlyFlags c inserted
    → RulesSet inserted id rules t
    → OnlyFlags c t
RulesSet-OnlyFlags c inserted t id [] o h = subst (OnlyFlags c) (sym h) o
RulesSet-OnlyFlags c inserted t id (r ∷ rules) o h =
    OnlyFlags-trans c inserted t o (subst (OnlyFlags inserted) (sym h.tables_are) refl)

pub CreatedFrom-OnlyFlags :
    (c : Tables) (input : CreateFlagInput) (row : Flag) (t : Tables)
    → CreatedFrom c input row t
    → OnlyFlags c t
CreatedFrom-OnlyFlags c input row t d =
    RulesSet-OnlyFlags c d.inserted t row.id input.rules
      (subst (OnlyFlags c) (sym d.created.tables_are) refl) d.rules_set

RulesUpdated-OnlyFlags :
    (c t : Tables) (id : String) (current : RolloutStrategy)
    (rules : Option (List (Option RuleInput))) (strategy : RolloutStrategy)
    → RulesUpdated c id current rules strategy t
    → OnlyFlags c t
RulesUpdated-OnlyFlags c t id current none strategy h = subst (OnlyFlags c) (sym h.1) refl
RulesUpdated-OnlyFlags c t id current (some []) strategy h =
    subst (OnlyFlags c) (sym h.1.tables_are) refl
RulesUpdated-OnlyFlags c t id current (some (r ∷ rules)) strategy h =
    subst (OnlyFlags c) (sym h.1.tables_are) refl

pub UpdatedFrom-OnlyFlags :
    (c : Tables) (input : UpdateFlagInput) (row : Flag) (t : Tables)
    → UpdatedFrom c input row t
    → OnlyFlags c t
UpdatedFrom-OnlyFlags c input row t d =
    OnlyFlags-trans c d.with_rules t
      (RulesUpdated-OnlyFlags c d.with_rules d.flag.id d.flag.rollout_strategy input.rules
        d.strategy d.rules_updated)
      (subst (OnlyFlags d.with_rules) (sym d.tables_are) refl)

pub DeletedFrom-OnlyFlags :
    (c : Tables) (key env id : String) (t : Tables) → DeletedFrom c key env id t → OnlyFlags c t
DeletedFrom-OnlyFlags c key env id t d = subst (OnlyFlags c) (sym d.tables_are) refl

-- Neither setting nor updating the rules touches the flags.
pub RulesSet-flags :
    (inserted t : Tables) (id : String) (rules : List (Option RuleInput))
    → RulesSet inserted id rules t
    → t.feature_flags ≡ inserted.feature_flags
RulesSet-flags inserted t id [] h = ap (λ (u : Tables). u.feature_flags) h
RulesSet-flags inserted t id (x ∷ rules) h = ap (λ (u : Tables). u.feature_flags) h.tables_are

pub RulesUpdated-flags :
    (before t : Tables) (id : String) (current : RolloutStrategy)
    (rules : Option (List (Option RuleInput))) (strategy : RolloutStrategy)
    → RulesUpdated before id current rules strategy t
    → t.feature_flags ≡ before.feature_flags
RulesUpdated-flags before t id current none strategy u = ap (λ (v : Tables). v.feature_flags) u.1
RulesUpdated-flags before t id current (some []) strategy u =
    ap (λ (v : Tables). v.feature_flags) u.1.tables_are
RulesUpdated-flags before t id current (some (x ∷ rules)) strategy u =
    ap (λ (v : Tables). v.feature_flags) u.1.tables_are
