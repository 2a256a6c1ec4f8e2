-- ===== src/Auth.antt =====
-- internal/auth/auth.go: the claims and the actor in a request's context, and the role check.
pub mod RoleCheck
pub mod Token
use featureflag_api.Prelude.{String, Bool, true, false, Option, none, some, List, [], ◌∷◌}
use featureflag_api.Prelude.{◌=s◌, if◌then◌else◌}
use featureflag_api.Errors.{auth}
use featureflag_api.Errors.Domain.{unauthorized, forbidden}
use featureflag_api.Exec.{Result, ok, err}

pub record Claims : Type 0 where
  pub sub : String
  pub role : String

-- The two keys of a `context.Context` that the program sets.
pub record Context : Type 0 where
  pub auth_claims : Option Claims
  pub auth_actor_id : Option String

abbrev pub background : Context
background = record { auth_claims = none; auth_actor_id = none }

unfoldable pub with_claims : Context → Claims → Context
with_claims ctx claims = record ctx { auth_claims = some claims }

unfoldable pub from_context : Context → Option Claims
from_context ctx = ctx.auth_claims

-- The loop of `RequireRole` over `allowedRoles`.
unfoldable pub role_allowed : String → List String → Bool
role_allowed role [] = false
role_allowed role (r ∷ rest) = if role =s r then true else role_allowed role rest

unfoldable pub check_claims : List String → Option Claims → Result String
check_claims allowed none = err (auth (unauthorized "no or invalid claims"))
check_claims allowed (some claims) =
    if role_allowed claims.role allowed
    then ok claims.sub
    else err (auth (forbidden claims.role allowed))

unfoldable pub require_role : Context → List String → Result String
unfolding role_allowed check_claims from_context
require_role ctx allowed = check_claims allowed (from_context ctx)

unfoldable pub with_actor_id : Context → String → Context
with_actor_id ctx actor = record ctx { auth_actor_id = some actor }

unfoldable pub nonempty : Option String → Option String
nonempty none = none
nonempty (some s) = if s =s "" then none else some s

unfoldable pub actor_id_from_context : Context → Option String
unfolding nonempty
actor_id_from_context ctx = nonempty ctx.auth_actor_id
