-- ===== src/Examples.antt =====
-- Concrete runs: the theorems of the components at tables, inputs and answers written out.
mod Rollout
mod Variants
mod Mutations
mod Access
pub mod People
mod Reading
mod Checks
mod Success
pub mod Requests
pub mod Chain
mod ErrorTexts
mod History
mod SignIn
mod Taken
use featureflag_api.Prelude.{ℕ, String, none, some, [], ◌∷◌, true, false}
use featureflag_api.Prelude.Int.{pos}
use featureflag_api.Auth.{Context, Claims}
use featureflag_api.Schema.{
  RolloutStrategy, RuleType, Role, Flag, Rule, User, Variant, Tables, no_rows,
}
use featureflag_api.Database.{Answer, done, World}

-- A server on which every statement works.
abbrev pub working : ℕ → Answer
working n = record { outcome = done; uuid = "id"; now = n }

abbrev pub dark_mode : Flag
dark_mode = record {
  id = "flag-1";
  key = "dark_mode";
  description = none;
  enabled = true;
  environment = "prod";
  rollout_strategy = RolloutStrategy.percentage;
  created_at = 0;
}

abbrev pub half : Rule
half = record { id = "rule-1"; flag_id = "flag-1"; rule_type = RuleType.percentage; value = "50" }

abbrev pub ann : User
ann = record {
  id = "ann";
  email = "ann@example.org";
  role = Role.admin;
  password_hash = some "hash-of-secret";
  created_at = 0;
}

abbrev pub one_flag : Tables
one_flag = record no_rows {
  users = ann ∷ [];
  feature_flags = dark_mode ∷ [];
  flag_rules = half ∷ [];
}

abbrev pub world : World
world = record { committed = one_flag; pending = none; last_commit = none; answers = working }

abbrev pub by_ann : Context
by_ann = record {
  auth_claims = some (record { sub = "ann"; role = "admin" });
  auth_actor_id = some "ann";
}

abbrev pub variant_a : Variant
variant_a = record { id = "a"; experiment_id = "e1"; name = "A"; weight = pos 60 }

abbrev pub variant_b : Variant
variant_b = record { id = "b"; experiment_id = "e1"; name = "B"; weight = pos 40 }
