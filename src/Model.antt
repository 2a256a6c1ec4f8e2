-- ===== src/Model.antt =====
-- graph/model/models_gen.go: the GraphQL inputs, results and enums. A pointer field is an `Option`;
-- a nil slice and an empty one are told apart where the code does (`Option` of a list).
pub mod Texts
use featureflag_api.Prelude.{ℕ, String, Bool, Option, List, ◌=s◌, if◌then◌else◌}
use featureflag_api.Prelude.{◌<>◌}
use featureflag_api.Prelude.Int.{ℤ}
use featureflag_api.Errors.{plain}
use featureflag_api.Exec.{Result, ok, err}

pub data RolloutStrategy : Type 0 where
  none percentage attribute : RolloutStrategy

pub data RolloutRuleType : Type 0 where
  percentage attribute : RolloutRuleType

pub data Role : Type 0 where
  admin developer viewer : Role

pub record RuleInput : Type 0 where
  pub rule_type : RolloutRuleType
  pub value : String

pub record CreateFlagInput : Type 0 where
  pub key : String
  pub description : Option String
  pub environment : String
  pub rollout_strategy : Option RolloutStrategy
  pub rules : List (Option RuleInput)

pub record UpdateFlagInput : Type 0 where
  pub key : String
  pub environment : Option String
  pub enabled : Bool
  pub rules : Option (List (Option RuleInput))

pub record EvaluationContextInput : Type 0 where
  pub user_id : String
  pub email : Option String

pub record FeatureFlag : Type 0 where
  pub id : String
  pub key : String
  pub description : Option String
  pub enabled : Bool
  pub environment : String
  pub rollout_strategy : RolloutStrategy

pub record ExperimentVariantInput : Type 0 where
  pub name : String
  pub weight : ℤ

pub record CreateExperimentInput : Type 0 where
  pub key : String
  pub environment : String
  pub variants : List ExperimentVariantInput

pub record Experiment : Type 0 where
  pub id : String
  pub key : String
  pub environment : String

pub record ExperimentVariant : Type 0 where
  pub id : String
  pub experiment_id : String
  pub name : String
  pub weight : ℤ

pub record CreateUserInput : Type 0 where
  pub email : String
  pub role : Role
  pub password : Option String

pub record UpdateUserInput : Type 0 where
  pub id : String
  pub email : Option String
  pub role : Option Role
  pub password : Option String

-- `createdAt` is kept as the time, before the service formats it.
pub record User : Type 0 where
  pub id : String
  pub email : String
  pub role : Role
  pub created_at : ℕ

pub record LoginInput : Type 0 where
  pub email : String
  pub password : String

pub record LoginPayload : Type 0 where
  pub token : String

-- `createdAt` is kept as the time, too.
pub record AuditLog : Type 0 where
  pub id : String
  pub entity : String
  pub entity_id : String
  pub action : String
  pub actor_id : String
  pub created_at : ℕ

pub record AuditLogsFilterInput : Type 0 where
  pub entity : Option String
  pub action : Option String
  pub actor_id : Option String

-- `Role.String` and `RolloutStrategy.String`
unfoldable pub role_string : Role → String
role_string Role.admin = "admin"
role_string Role.developer = "developer"
role_string Role.viewer = "viewer"

unfoldable pub strategy_string : RolloutStrategy → String
strategy_string RolloutStrategy.none = "NONE"
strategy_string RolloutStrategy.percentage = "PERCENTAGE"
strategy_string RolloutStrategy.attribute = "ATTRIBUTE"

unfoldable pub rule_type_string : RolloutRuleType → String
rule_type_string RolloutRuleType.percentage = "PERCENTAGE"
rule_type_string RolloutRuleType.attribute = "ATTRIBUTE"

-- `UnmarshalGQL` of a text: the enum's value, or the error of `IsValid`.
unfoldable pub role_unmarshal : String → Result Role
role_unmarshal s =
    if s =s "admin"
    then ok Role.admin
    else if s =s "developer"
    then ok Role.developer
    else if s =s "viewer"
    then ok Role.viewer
    else err (plain (s <> " is not a valid Role"))

unfoldable pub strategy_unmarshal : String → Result RolloutStrategy
strategy_unmarshal s =
    if s =s "NONE"
    then ok RolloutStrategy.none
    else if s =s "PERCENTAGE"
    then ok RolloutStrategy.percentage
    else if s =s "ATTRIBUTE"
    then ok RolloutStrategy.attribute
    else err (plain (s <> " is not a valid RolloutStrategy"))

unfoldable pub rule_type_unmarshal : String → Result RolloutRuleType
rule_type_unmarshal s =
    if s =s "PERCENTAGE"
    then ok RolloutRuleType.percentage
    else if s =s "ATTRIBUTE"
    then ok RolloutRuleType.attribute
    else err (plain (s <> " is not a valid RolloutRuleType"))
