-- ===== src/Audit.antt =====
-- internal/audit: the store interface, the write transaction of the services (tx_write.go), and the
-- PostgreSQL store (postgres.go).
pub mod Postgres
pub mod Write
pub mod Service
pub mod Recorded
pub mod Listing
use featureflag_api.Prelude.{String, Option, List}
use featureflag_api.Prelude.Int.{ℤ}
use featureflag_api.Exec.{Exec}
use featureflag_api.Database.{World}
use featureflag_api.Schema.{Entry}

-- Entity and action names of entity.go.
abbrev pub entity_feature_flag : String
entity_feature_flag = "feature_flag"

abbrev pub entity_user : String
entity_user = "user"

abbrev pub entity_experiment : String
entity_experiment = "experiment"

abbrev pub action_create : String
action_create = "create"

abbrev pub action_update : String
action_update = "update"

abbrev pub action_delete : String
action_delete = "delete"

pub record ListFilter : Type 0 where
  pub entity : Option String
  pub action : Option String
  pub actor_id : Option String

pub record Store : Type 0 where
  pub create : Option Entry → Exec World Unit
  pub get_by_id : String → Exec World (Option Entry)
  pub list : ListFilter → ℤ → ℤ → Exec World (List Entry)

-- A store with what the type assertions find: `begin_tx` if it is a `TxStarter`, and the store of
-- the open transaction if it is a `TxAwareStore`.
pub record Handle : Type 0 where
  pub store : Store
  pub begin_tx : Option (Exec World Unit)
  pub with_tx : Option Store
