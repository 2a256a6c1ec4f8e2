-- ===== src/Examples/Access.antt =====
-- The role check on the request of the user ann, who is an admin.
use mathlib.Core.List.{Memᴰ}
use featureflag_api.Prelude.{◌≡◌, ◌↔◌, some, [], ◌∷◌}
use featureflag_api.Exec.{ok}
use featureflag_api.Auth.{Claims, require_role, from_context}
use featureflag_api.Auth.RoleCheck.{require_role_iff}
use featureflag_api.Examples.{by_ann}

require_role_iff_example : (require_role by_ann ("admin" ∷ "developer" ∷ []) ≡ ok "ann") ↔ (
    (c : Claims) × (from_context by_ann ≡ some c)
    × Memᴰ c.role ("admin" ∷ "developer" ∷ [])
    × (c.sub ≡ "ann"))
require_role_iff_example = require_role_iff by_ann ("admin" ∷ "developer" ∷ []) "ann"
