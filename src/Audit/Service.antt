-- ===== src/Audit/Service.antt =====
-- internal/audit/service.go: a thin layer over the store for the resolvers.
use featureflag_api.Prelude.{String, Option, List}
use featureflag_api.Prelude.Int.{ℤ}
use featureflag_api.Exec.{Exec}
use featureflag_api.Schema.{Entry}
use featureflag_api.Database.{World}
use featureflag_api.Audit.{Store, ListFilter}

pub record Service : Type 0 where
  pub store : Store

abbrev pub new_service : Store → Service
new_service store = record { store = store }

unfoldable pub get_by_id : Service → String → Exec World (Option Entry)
get_by_id s id = s.store.get_by_id id

unfoldable pub list : Service → ListFilter → ℤ → ℤ → Exec World (List Entry)
list s filter limit offset = s.store.list filter limit offset
