-- ===== src/Flags/Decision.antt =====
-- `EvaluateFlagInEnvironment` of internal/flags/service.go: what it answers, by the stored flags
-- and rules.
use featureflag_api.Prelude.{String, Bool, true, false, Option, none, some, List, [], ◌∷◌}
use featureflag_api.Prelude.{◌≡◌, find_by, filter_by, sort_by}
use featureflag_api.Exec.{ok}
use featureflag_api.Exec.Triple.{Triple}
use featureflag_api.Schema.{Tables, Flag, Rule}
use featureflag_api.Database.{World}
use featureflag_api.Database.Reading.{Unchanged}
use featureflag_api.Model.{EvaluationContextInput}
use featureflag_api.Flags.Postgres.{at_key, of_flag}
use featureflag_api.Flags.Evaluate.{AttributeCondition, evaluate_rules_by_strategy}

-- The rules of a flag, as the store orders them.
abbrev pub rules_of : Tables → String → List Rule
rules_of t flag_id = sort_by (λ (r : Rule). r.id) (filter_by (of_flag flag_id) t.flag_rules)

module _ (unmarshal : String → Option AttributeCondition) where
  -- When the tables switch a flag on or off for a user: an unknown flag and one that is not enabled
  -- are off, an enabled flag without rules is on, and else the rules of the strategy decide.
  pub data Decides (t : Tables) (key env : String) (c : EvaluationContextInput)
      : Bool → Type 0 where
    unknown : find_by (at_key key env) t.feature_flags ≡ none → Decides t key env c false
    switched_off :
        (flag : Flag)
        → find_by (at_key key env) t.feature_flags ≡ some flag
        → flag.enabled ≡ false
        → Decides t key env c false
    without_rules :
        (flag : Flag)
        → find_by (at_key key env) t.feature_flags ≡ some flag
        → flag.enabled ≡ true
        → rules_of t flag.id ≡ []
        → Decides t key env c true
    by_rules :
        (flag : Flag) (b : Bool) (rule : Rule) (rules : List Rule)
        → find_by (at_key key env) t.feature_flags ≡ some flag
        → flag.enabled ≡ true
        → rules_of t flag.id ≡ rule ∷ rules
        → evaluate_rules_by_strategy unmarshal flag.rollout_strategy c.user_id c.email
            (rule ∷ rules)
          ≡ ok b
        → Decides t key env c b

  module _ (w : World) (key env : String) (c : EvaluationContextInput) where
    abbrev Decided : Bool → World → Type 0
    Decided b v = Decides w.committed key env c b × Unchanged w v
