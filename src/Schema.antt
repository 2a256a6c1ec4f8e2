-- ===== src/Schema.antt =====
-- The tables of internal/db/schema.go, with a row per entity of internal/*/entity.go.
use featureflag_api.Prelude.{ℕ, String, Bool, Option, List, []}
use featureflag_api.Prelude.Int.{ℤ}

-- `RolloutStrategy` and `RuleType` of internal/flags/entity.go, as the CHECKs of their columns
-- restrict them; `unset` is the empty string that a nil rule input has for its type.
pub data RolloutStrategy : Type 0 where
  none percentage attribute : RolloutStrategy

pub data RuleType : Type 0 where
  percentage attribute unset : RuleType

pub data Role : Type 0 where
  admin developer viewer : Role

pub record Flag : Type 0 where
  pub id : String
  pub key : String
  pub description : Option String
  pub enabled : Bool
  pub environment : String
  pub rollout_strategy : RolloutStrategy
  pub created_at : ℕ

pub record Rule : Type 0 where
  pub id : String
  pub flag_id : String
  pub rule_type : RuleType
  pub value : String

pub record User : Type 0 where
  pub id : String
  pub email : String
  pub role : Role
  pub password_hash : Option String
  pub created_at : ℕ

pub record Experiment : Type 0 where
  pub id : String
  pub key : String
  pub environment : String

pub record Variant : Type 0 where
  pub id : String
  pub experiment_id : String
  pub name : String
  pub weight : ℤ

pub record Assignment : Type 0 where
  pub user_id : String
  pub experiment_id : String
  pub variant_id : String

pub record Entry : Type 0 where
  pub id : String
  pub entity : String
  pub entity_id : String
  pub action : String
  pub actor_id : String
  pub created_at : ℕ

pub record Tables : Type 0 where
  pub users : List User
  pub feature_flags : List Flag
  pub flag_rules : List Rule
  pub experiments : List Experiment
  pub experiment_variants : List Variant
  pub experiment_assignments : List Assignment
  pub audit_logs : List Entry

-- The tables after the first `EnsureSchema`.
abbrev pub no_rows : Tables
no_rows = record {
  users = [];
  feature_flags = [];
  flag_rules = [];
  experiments = [];
  experiment_variants = [];
  experiment_assignments = [];
  audit_logs = [];
}
