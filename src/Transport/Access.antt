-- ===== src/Transport/Access.antt =====
-- The role check in front of every resolver of transport/graphql but the login.
use mathlib.Core.List.{Memᴰ}
use mathlib.Core.Option.{some-injective}
use featureflag_api.Prelude.{String, none, some, List, ◌≡◌, refl, sym, subst, ◌∙◌}
use featureflag_api.Errors.{GoError, auth}
use featureflag_api.Errors.Domain.{unauthorized, forbidden}
use featureflag_api.Exec.{err}
use featureflag_api.Auth.{Claims, Context, require_role, from_context, check_claims}
use featureflag_api.Auth.RoleCheck.{role_allowed-false}
use featureflag_api.Database.{World}
use featureflag_api.Transport.{Libraries, Resolver}
use featureflag_api.Transport.Mutations.{
  writers, admins, as_actor, create_flag, update_flag, delete_flag, create_user, update_user,
  delete_user, create_experiment,
}
use featureflag_api.Transport.Queries.{
  readers, evaluate_flag, user, user_by_email, experiment, get_assignment, audit_log, audit_logs,
  require_audit_read_access,
}
use featureflag_api.Transport.Requests.{Request, resolve, roles_of}

-- The request of a caller who has none of the roles, and the error that it gets.
pub data Denied (ctx : Context) (roles : List String) : GoError → Type 0 where
  unauthenticated :
      from_context ctx ≡ none → Denied ctx roles (auth (unauthorized "no or invalid claims"))
  without_role :
      (c : Claims)
      → from_context ctx ≡ some c
      → ¬ (Memᴰ c.role roles)
      → Denied ctx roles (auth (forbidden c.role roles))

Denied-require_role :
    (ctx : Context) (roles : List String) (e : GoError)
    → Denied ctx roles e
    → require_role ctx roles ≡ err e
unfolding require_role check_claims
Denied-require_role ctx roles e (unauthenticated absent) = rw absent
Denied-require_role ctx roles e (without_role c present missing) =
    rw (present, role_allowed-false c.role roles missing)

denied_at :
    (lib : Libraries) (r : Resolver) (ctx : Context) (q : Request) (roles : List String)
    (e : GoError) (w : World)
    → roles_of q ≡ some roles
    → ((rs : List String) → roles_of q ≡ some rs → require_role ctx rs ≡ err e)
    → resolve lib r ctx q w ≡ (err e, w)
unfolding resolve as_actor create_flag update_flag delete_flag create_user update_user delete_user
    create_experiment evaluate_flag user user_by_email experiment get_assignment audit_log
    audit_logs require_audit_read_access
denied_at lib r ctx (Request.create_flag input) roles e w needs check = rw (check writers refl)
denied_at lib r ctx (Request.update_flag input) roles e w needs check = rw (check writers refl)
denied_at lib r ctx (Request.delete_flag key env) roles e w needs check = rw (check writers refl)
denied_at lib r ctx (Request.create_user input) roles e w needs check = rw (check admins refl)
denied_at lib r ctx (Request.update_user input) roles e w needs check = rw (check admins refl)
denied_at lib r ctx (Request.delete_user id) roles e w needs check = rw (check admins refl)
denied_at lib r ctx (Request.create_experiment input) roles e w needs check =
    rw (check writers refl)
denied_at lib r ctx (Request.login input) roles e w needs check = cc
denied_at lib r ctx (Request.evaluate_flag key c env) roles e w needs check =
    rw (check readers refl)
denied_at lib r ctx (Request.user id) roles e w needs check = rw (check readers refl)
denied_at lib r ctx (Request.user_by_email email) roles e w needs check = rw (check readers refl)
denied_at lib r ctx (Request.experiment key env) roles e w needs check = rw (check readers refl)
denied_at lib r ctx (Request.get_assignment u key env) roles e w needs check =
    rw (check readers refl)
denied_at lib r ctx (Request.audit_log id) roles e w needs check = rw (check admins refl)
denied_at lib r ctx (Request.audit_logs filter limit offset) roles e w needs check =
    rw (check admins refl)

-- A caller who has none of the roles that a request needs gets the error of the missing claims or
-- of the role, and nothing is done: no statement is sent and nothing changes.
pub resolve-Denied :
    (lib : Libraries) (r : Resolver) (ctx : Context) (q : Request) (roles : List String)
    (e : GoError) (w : World)
    → roles_of q ≡ some roles
    → Denied ctx roles e
    → resolve lib r ctx q w ≡ (err e, w)
resolve-Denied lib r ctx q roles e w needs denied =
    denied_at lib r ctx q roles e w needs (λ rs at_rs.
      Denied-require_role ctx rs e
        (subst (λ x. Denied ctx x e) (some-injective roles rs (sym needs ∙ at_rs)) denied))
