-- ===== src/Flags/Changes.antt =====
-- What createFlagWithStore, updateFlagWithStore and deleteFlagWithStoreAndID of
-- internal/flags/service.go do to the tables that a transaction sees.
use featureflag_api.Prelude.{String, Option, none, some, List, [], ◌∷◌}
use featureflag_api.Prelude.{◌≡◌, refl, sym, find_by}
use featureflag_api.Exec.{ok}
use featureflag_api.Exec.Triple.{
  Triple, Triple-pure, Triple-raise, Triple-lift, Triple-bind, Triple-on_error, Triple_given,
}
use featureflag_api.Schema.{Tables, RolloutStrategy, Flag}
use featureflag_api.Database.{on_tx}
use featureflag_api.Database.Atomic.{InTx, At, Untouched, Triple-from, InTx-mono}
use featureflag_api.Model.{RuleInput, CreateFlagInput, UpdateFlagInput}
use featureflag_api.Flags.Postgres.{postgres_store, at_key}
use featureflag_api.Flags.Rules.{
  rule_inputs_to_rules, resolve_strategy_for_create, strategy_for_update,
}
use featureflag_api.Flags.Service.{
  apply_rules_update_with_store, environment_or_default, get_flag_or_err_with_store, found,
  update_flag_with_store, new_flag, create_flag_with_store, ensure_unique_flag_with_store,
  persist_rules_for_new_flag, unused,
}
use featureflag_api.Flags.Delete.{delete_flag_with_store_and_id}
use featureflag_api.Flags.Effects.{
  RulesReplaced, FlagCreated, get-At, create-FlagCreated, replace_rules-RulesReplaced, update-At,
  delete-At, flag_updated, flag_deleted,
}

-- The rules that a creation stores: none is touched if the input has none.
abbrev pub RulesSet : Tables → String → List (Option RuleInput) → Tables → Type 0
RulesSet before flag_id [] t = t ≡ before
RulesSet before flag_id (r ∷ rules) t =
    RulesReplaced before flag_id (rule_inputs_to_rules flag_id (r ∷ rules)) t

-- What `createFlagWithStore` does to the tables: one row more, for a key that was free, with the
-- strategy that the input resolves to, and the rules of the input.
pub record CreatedFrom (before : Tables) (input : CreateFlagInput) (row : Flag) (t : Tables)
    : Type 0 where
  pub strategy : RolloutStrategy
  pub resolved : resolve_strategy_for_create input ≡ ok strategy
  pub inserted : Tables
  pub created : FlagCreated before (new_flag input strategy) row inserted
  pub rules_set : RulesSet inserted row.id input.rules t

module _ (c t : Tables) where
  unused-Triple :
      (key env : String) (found : Option Flag)
      → Triple
          (InTx c (λ u. (found ≡ find_by (at_key key env) t.feature_flags) × (u ≡ t)))
          (unused key env found)
          (λ _. At c t)
          (Untouched c)
  unfolding unused
  unused-Triple key env none = Triple-pure tt (λ w. InTx-mono (λ u h. h.1))
  unused-Triple key env (some f) = Triple-raise _ (λ w h. h.committed)

  ensure_unique-At :
      (key env : String)
      → Triple
          (At c t)
          (ensure_unique_flag_with_store (postgres_store on_tx) key env)
          (λ _. At c t)
          (Untouched c)
  unfolding ensure_unique_flag_with_store postgres_store
  ensure_unique-At key env =
      Triple-bind _ _ (Triple-on_error _ _ (get-At c t key env)) (unused-Triple key env)

  persist-RulesSet :
      (flag_id : String) (rules : List (Option RuleInput))
      → Triple
          (At c t)
          (persist_rules_for_new_flag (postgres_store on_tx) flag_id rules)
          (λ _. InTx c (RulesSet t flag_id rules))
          (Untouched c)
  unfolding persist_rules_for_new_flag postgres_store
  persist-RulesSet flag_id [] = Triple-pure tt (λ w h. h)
  persist-RulesSet flag_id (r ∷ rules) =
      Triple-on_error _ _ (replace_rules-RulesReplaced c t flag_id _)

pub create-CreatedFrom :
    (c t : Tables) (input : CreateFlagInput)
    → Triple
        (At c t)
        (create_flag_with_store (postgres_store on_tx) input)
        (λ row. InTx c (CreatedFrom t input row))
        (Untouched c)
unfolding create_flag_with_store postgres_store
create-CreatedFrom c t input =
    Triple-bind _ _ (ensure_unique-At c t input.key input.environment) (λ _.
      Triple-bind _ _ (Triple-lift _ (λ strategy e w h. (e, h)) (λ w h. h.committed)) (λ strategy.
        Triple_given (λ resolved.
          Triple-bind _ _ (Triple-on_error _ _ (create-FlagCreated c t (new_flag input strategy)))
            (λ row. Triple-from (λ u created.
              Triple-bind _ _ (persist-RulesSet c u row.id input.rules) (λ _. Triple-pure row (λ w.
                InTx-mono (λ v h. record {
                  strategy = strategy;
                  resolved = resolved;
                  inserted = u;
                  created = created;
                  rules_set = h;
                }))))))))

-- What the rules of an update do, by its three cases, and the strategy that the flag gets.
abbrev pub RulesUpdated :
    Tables
    → String
    → RolloutStrategy
    → Option (List (Option RuleInput))
    → RolloutStrategy
    → Tables
    → Type 0
RulesUpdated before flag_id current none strategy t = (strategy ≡ current) × (t ≡ before)
RulesUpdated before flag_id current (some []) strategy t =
    (strategy ≡ RolloutStrategy.none) × RulesReplaced before flag_id [] t
RulesUpdated before flag_id current (some (r ∷ rules)) strategy t =
    (strategy_for_update current (r ∷ rules) ≡ ok strategy)
    × RulesReplaced before flag_id (rule_inputs_to_rules flag_id (r ∷ rules)) t

-- What `updateFlagWithStore` does: the flag of the key gets the new switch, strategy and rules.
pub record UpdatedFrom (before : Tables) (input : UpdateFlagInput) (row : Flag) (t : Tables)
    : Type 0 where
  pub flag : Flag
  pub found :
      find_by (at_key input.key (environment_or_default input.environment)) before.feature_flags
      ≡ some flag
  pub strategy : RolloutStrategy
  pub with_rules : Tables
  pub rules_updated :
      RulesUpdated before flag.id flag.rollout_strategy input.rules strategy with_rules
  pub row_is : row ≡ record flag { enabled = input.enabled; rollout_strategy = strategy }
  pub tables_are : t ≡ flag_updated with_rules row

-- What `deleteFlagWithStoreAndID` does: the flag of the key and its rules are gone.
pub record DeletedFrom (before : Tables) (key env : String) (id : String) (t : Tables)
    : Type 0 where
  pub flag : Flag
  pub found : find_by (at_key key env) before.feature_flags ≡ some flag
  pub id_is : id ≡ flag.id
  pub tables_are : t ≡ flag_deleted before id

module _ (c t : Tables) where
  found-Triple :
      (key env : String) (o : Option Flag)
      → Triple
          (InTx c (λ u. (o ≡ find_by (at_key key env) t.feature_flags) × (u ≡ t)))
          (found key env o)
          (λ flag. InTx c (λ u. (find_by (at_key key env) t.feature_flags ≡ some flag) × (u ≡ t)))
          (Untouched c)
  unfolding found
  found-Triple key env none = Triple-raise _ (λ w h. h.committed)
  found-Triple key env (some f) = Triple-pure f (λ w. InTx-mono (λ u h. (sym h.0, h.1)))

  get_flag_or_err-Triple :
      (key env : String)
      → Triple
          (At c t)
          (get_flag_or_err_with_store (postgres_store on_tx) key env)
          (λ flag. InTx c (λ u. (find_by (at_key key env) t.feature_flags ≡ some flag) × (u ≡ t)))
          (Untouched c)
  unfolding get_flag_or_err_with_store postgres_store
  get_flag_or_err-Triple key env =
      Triple-bind _ _ (Triple-on_error _ _ (get-At c t key env)) (found-Triple key env)

  -- The flag that comes back, beside the tables.
  apply_rules_update-RulesUpdated :
      (flag : Flag) (rules : Option (List (Option RuleInput)))
      → Triple
          (At c t)
          (apply_rules_update_with_store (postgres_store on_tx) flag rules)
          (λ row. InTx c (λ u.
            (s : RolloutStrategy) × (row ≡ record flag { rollout_strategy = s })
            × RulesUpdated t flag.id flag.rollout_strategy rules s u))
          (Untouched c)
  unfolding apply_rules_update_with_store postgres_store
  apply_rules_update-RulesUpdated flag none =
      Triple-pure flag (λ w. InTx-mono (λ u h. (flag.rollout_strategy, refl, (refl, h))))
  apply_rules_update-RulesUpdated flag (some []) =
      Triple-bind _ _ (Triple-on_error _ _ (replace_rules-RulesReplaced c t flag.id []))
        (λ _. Triple-pure _ (λ w. InTx-mono (λ u h. (RolloutStrategy.none, refl, (refl, h)))))
  apply_rules_update-RulesUpdated flag (some (r ∷ rules)) =
      Triple-bind _ _ (Triple-lift _ (λ s e w h. (e, h)) (λ w h. h.committed)) (λ s.
        Triple_given (λ e.
          Triple-bind _ _ (Triple-on_error _ _ (replace_rules-RulesReplaced c t flag.id _))
            (λ _. Triple-pure _ (λ w. InTx-mono (λ u h. (s, refl, (e, h)))))))

pub update-UpdatedFrom :
    (c t : Tables) (input : UpdateFlagInput)
    → Triple
        (At c t)
        (update_flag_with_store (postgres_store on_tx) input)
        (λ row. InTx c (UpdatedFrom t input row))
        (Untouched c)
unfolding update_flag_with_store postgres_store
update-UpdatedFrom c t input =
    Triple-bind _ _
      (get_flag_or_err-Triple c t input.key (environment_or_default input.environment))
      (λ flag. Triple-from (λ u f. rw f.1 (
        Triple-bind _ _
          (apply_rules_update-RulesUpdated c t (record flag { enabled = input.enabled })
            input.rules)
          (λ row. Triple-from (λ v h.
            Triple-bind _ _ (Triple-on_error _ _ (update-At c v row)) (λ _. Triple-pure row (λ w.
              InTx-mono (λ x e. record {
                flag = flag;
                found = f.0;
                strategy = h.0;
                with_rules = v;
                rules_updated = h.2;
                row_is = h.1;
                tables_are = e;
              }))))))))

pub delete-DeletedFrom :
    (c t : Tables) (key env : String)
    → Triple
        (At c t)
        (delete_flag_with_store_and_id (postgres_store on_tx) key env)
        (λ id. InTx c (DeletedFrom t key env id))
        (Untouched c)
unfolding delete_flag_with_store_and_id postgres_store
delete-DeletedFrom c t key env = Triple-bind _ _ (get_flag_or_err-Triple c t key env) (λ flag.
    Triple-from (λ u f. rw f.1 (
      Triple-bind _ _ (Triple-on_error _ _ (delete-At c t flag.id)) (λ _. Triple-pure flag.id (λ w.
        InTx-mono (λ x e. record { flag = flag; found = f.0; id_is = refl; tables_are = e }))))))
