-- ===== src/Flags/Effects.antt =====
-- What the flags store of a transaction does to the tables that the transaction sees.
use mathlib.Core.List.{append_assoc, append-nil}
use featureflag_api.Prelude.{
  ℕ, zero, suc, if◌then◌else◌, update_by, String, List, [], ◌∷◌, ◌++◌, ◌≡◌, refl, ◌∙◌,
}
use featureflag_api.Prelude.{Bool, false, ◌||◌, exists_by, ap, arith, find_by, remove_by}
use featureflag_api.Exec.Triple.{
  Triple, Triple-pure, Triple-raise, Triple-bind, Triple-on_error, Triple_mono,
}
use featureflag_api.Schema.{Tables, Flag, Rule}
use featureflag_api.Database.{Answer, on_tx}
use featureflag_api.Database.Atomic.{
  InTx, At, Untouched, Replies, Replies-constraint, Triple-run-At, Triple-from, InTx-mono,
}
use featureflag_api.Flags.Postgres.{
  create, update, delete, update_flag, require_rows, set_columns, get_by_key_and_environment,
  insert_rule, insert_flag, has_id, insert_rules, replace_rules_by_flag_id, at_key, of_flag,
}

-- The rows stored for some rules: their type and value, under the flag.
abbrev pub IsStored : String → List Rule → List Rule → Type 0
IsStored flag_id [] [] = Unit
IsStored flag_id (r ∷ rules) (s ∷ stored) =
    (s.flag_id ≡ flag_id)
    × (s.rule_type ≡ r.rule_type)
    × (s.value ≡ r.value)
    × IsStored flag_id rules stored
IsStored flag_id _ _ = ⊥

pub or_false : {a b : Bool} → (a || b) ≡ false → (a ≡ false) × (b ≡ false)
or_false {a} {b} h = ground arith

-- The rules of a flag are replaced; nothing else changes.
pub record RulesReplaced (before : Tables) (flag_id : String) (rules : List Rule) (t : Tables)
    : Type 0 where
  pub stored : List Rule
  pub are_stored : IsStored flag_id rules stored
  pub tables_are :
      t ≡ record before { flag_rules = remove_by (of_flag flag_id) before.flag_rules ++ stored }

abbrev with_rules : Tables → List Rule → Tables
with_rules t rules = record t { flag_rules = rules }

-- Some rows are added at the end of flag_rules.
record Added (before : Tables) (base : List Rule) (flag_id : String) (rules : List Rule)
    (t : Tables) : Type 0 where
  stored : List Rule
  are_stored : IsStored flag_id rules stored
  tables_are : t ≡ with_rules before (base ++ stored)

module _ (c before : Tables) (flag_id : String) where
  record OneAdded (base : List Rule) (r : Rule) (t : Tables) : Type 0 where
    row : Rule
    is_stored : IsStored flag_id (r ∷ []) (row ∷ [])
    tables_are : t ≡ with_rules before (base ++ row ∷ [])

  row-OneAdded :
      (base : List Rule) (r : Rule) (uuid : String)
      → OneAdded base r (with_rules before (base ++ record r { id = uuid; flag_id = flag_id } ∷ []))
  row-OneAdded base r uuid = record {
    row = _;
    is_stored = (refl, refl, refl, tt);
    tables_are = refl;
  }

  insert_rule-OneAdded :
      (base : List Rule) (r : Rule) (a : Answer)
      → let out = insert_rule flag_id r a (with_rules before base) in
        Replies (λ _. OneAdded base r) out.0 out.1
  unfolding insert_rule
  insert_rule-OneAdded base r a = search (Replies-constraint, row-OneAdded base r a.uuid)

  Added-cons :
      (base : List Rule) (r row : Rule) (rules : List Rule) (t : Tables)
      → IsStored flag_id (r ∷ []) (row ∷ [])
      → Added before (base ++ row ∷ []) flag_id rules t
      → Added before base flag_id (r ∷ rules) t
  Added-cons base r row rules t h d = record {
    stored = row ∷ d.stored;
    are_stored = (h.0, h.1, h.2, d.are_stored);
    tables_are = d.tables_are ∙ ap (with_rules before) (append_assoc base (row ∷ []) d.stored);
  }

  insert_rules-Added :
      (rules base : List Rule)
      → Triple
          (At c (with_rules before base))
          (insert_rules flag_id rules)
          (λ _. InTx c (Added before base flag_id rules))
          (Untouched c)
  unfolding insert_rules
  insert_rules-Added [] base = Triple-pure tt (λ w.
      InTx-mono (λ t e. record { stored = []; are_stored = tt; tables_are = rw append-nil e }))
  insert_rules-Added (r ∷ rules) base =
      Triple-bind _ _
        (Triple-on_error _ _
          (Triple-run-At c _ (λ _. OneAdded base r) _ (insert_rule-OneAdded base r)))
        (λ _. Triple-from (λ t d. rw d.tables_are (
          Triple_mono (λ _ w. InTx-mono (λ u. Added-cons base r d.row rules u d.is_stored))
            (λ w h. h) (insert_rules-Added rules (base ++ d.row ∷ [])))))

-- `ReplaceRulesByFlagID` in a transaction.
pub replace_rules-RulesReplaced :
    (c t : Tables) (flag_id : String) (rules : List Rule)
    → Triple
        (At c t)
        (replace_rules_by_flag_id on_tx flag_id rules)
        (λ _. InTx c (RulesReplaced t flag_id rules))
        (Untouched c)
unfolding replace_rules_by_flag_id
replace_rules-RulesReplaced c t flag_id rules =
    Triple-bind _ _
      (Triple-on_error _ _ (
        Triple-run-At c t (λ _ u. u ≡ with_rules t (remove_by (of_flag flag_id) t.flag_rules)) _
          (λ a. refl)))
      (λ _.
        Triple_mono
          (λ _ w. InTx-mono (λ u d. record {
            stored = d.stored;
            are_stored = d.are_stored;
            tables_are = d.tables_are;
          }))
          (λ w h. h)
          (insert_rules-Added c t flag_id rules (remove_by (of_flag flag_id) t.flag_rules)))

-- `GetByKeyAndEnvironment` in a transaction.
pub get-At :
    (c t : Tables) (key environment : String)
    → Triple
        (At c t)
        (get_by_key_and_environment on_tx key environment)
        (λ found.
          InTx c (λ u. (found ≡ find_by (at_key key environment) t.feature_flags) × (u ≡ t)))
        (Untouched c)
unfolding get_by_key_and_environment
get-At c t key environment = Triple-on_error _ _ (
    Triple-run-At c t
      (λ found u. (found ≡ find_by (at_key key environment) t.feature_flags) × (u ≡ t)) _
      (λ a. (refl, refl)))

-- `Create` in a transaction: the row is stored with the values of the database.
pub record FlagCreated (before : Tables) (flag row : Flag) (t : Tables) : Type 0 where
  pub key_is : row.key ≡ flag.key
  pub environment_is : row.environment ≡ flag.environment
  pub description_is : row.description ≡ flag.description
  pub enabled_is : row.enabled ≡ flag.enabled
  pub strategy_is : row.rollout_strategy ≡ flag.rollout_strategy
  pub id_is_new : exists_by (has_id row.id) before.feature_flags ≡ false
  pub key_is_new : exists_by (at_key flag.key flag.environment) before.feature_flags ≡ false
  pub tables_are : t ≡ record before { feature_flags = before.feature_flags ++ row ∷ [] }

row-FlagCreated :
    (t : Tables) (flag : Flag) (a : Answer)
    → (exists_by (at_key flag.key flag.environment) t.feature_flags
        || exists_by (has_id a.uuid) t.feature_flags)
      ≡ false
    → let row = record flag { id = a.uuid; created_at = a.now } in
      FlagCreated t flag row (record t { feature_flags = t.feature_flags ++ row ∷ [] })
row-FlagCreated t flag a fresh = record {
  key_is = refl;
  environment_is = refl;
  description_is = refl;
  enabled_is = refl;
  strategy_is = refl;
  id_is_new = (or_false fresh).1;
  key_is_new = (or_false fresh).0;
  tables_are = refl;
}

insert_flag-FlagCreated :
    (t : Tables) (flag : Flag) (a : Answer)
    → Replies (FlagCreated t flag) (insert_flag flag a t).0 (insert_flag flag a t).1
unfolding insert_flag
insert_flag-FlagCreated t flag a = search (Replies-constraint, row-FlagCreated t flag a)

pub create-FlagCreated :
    (c t : Tables) (flag : Flag)
    → Triple (At c t) (create on_tx flag) (λ row. InTx c (FlagCreated t flag row)) (Untouched c)
unfolding create
create-FlagCreated c t flag =
    Triple-on_error _ _ (Triple-run-At c t (FlagCreated t flag) _ (insert_flag-FlagCreated t flag))

-- `Update` in a transaction: the columns of the flag's row are set.
abbrev pub flag_updated : Tables → Flag → Tables
flag_updated t flag = record t {
  feature_flags = update_by (has_id flag.id) (set_columns flag) t.feature_flags;
}

update_flag-Replies :
    (t : Tables) (flag : Flag) (a : Answer)
    → Replies (λ _ u. u ≡ flag_updated t flag) (update_flag flag a t).0 (update_flag flag a t).1
unfolding update_flag
update_flag-Replies t flag a = search Replies-constraint

require_rows-Triple :
    (c : Tables) (Q : Tables → Type 0) (id : String) (n : ℕ)
    → Triple (InTx c Q) (require_rows id n) (λ _. InTx c Q) (Untouched c)
unfolding require_rows
require_rows-Triple c Q id zero = Triple-raise _ (λ w h. h.committed)
require_rows-Triple c Q id (suc n) = Triple-pure tt (λ w h. h)

pub update-At :
    (c t : Tables) (flag : Flag)
    → Triple (At c t) (update on_tx flag) (λ _. At c (flag_updated t flag)) (Untouched c)
unfolding update
update-At c t flag =
    Triple-bind _ _
      (Triple-on_error _ _
        (Triple-run-At c t (λ _ u. u ≡ flag_updated t flag) _ (update_flag-Replies t flag)))
      (λ n. require_rows-Triple c _ flag.id n)

-- `Delete` in a transaction, with the cascade.
abbrev pub flag_deleted : Tables → String → Tables
flag_deleted t id = record t {
  feature_flags = remove_by (has_id id) t.feature_flags;
  flag_rules =
      if exists_by (has_id id) t.feature_flags
      then remove_by (of_flag id) t.flag_rules
      else t.flag_rules;
}

pub delete-At :
    (c t : Tables) (id : String)
    → Triple (At c t) (delete on_tx id) (λ _. At c (flag_deleted t id)) (Untouched c)
unfolding delete
delete-At c t id =
    Triple-bind _ _
      (Triple-on_error _ _ (Triple-run-At c t (λ _ u. u ≡ flag_deleted t id) _ (λ a. refl)))
      (λ n. require_rows-Triple c _ id n)
