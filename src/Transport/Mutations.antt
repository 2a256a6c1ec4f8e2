-- ===== src/Transport/Mutations.antt =====
-- transport/graphql/{flags,users,experiments,auth}.resolvers.go: the mutations.
use featureflag_api.Prelude.{String, Bool, Option, none, some, List, [], ◌∷◌}
use featureflag_api.Errors.{plain}
use featureflag_api.Exec.{Exec, pure, raise, lift, ◌>>=◌}
use featureflag_api.Auth.{Context, require_role, with_actor_id}
use featureflag_api.Auth.Token.{issue_token}
use featureflag_api.Database.{World}
use featureflag_api.Model
use featureflag_api.Model.{
  CreateFlagInput, UpdateFlagInput, CreateUserInput, UpdateUserInput, CreateExperimentInput,
  FeatureFlag, LoginInput, LoginPayload,
}
use featureflag_api.Flags.Service
use featureflag_api.Flags.Delete
use featureflag_api.Users.Service.{login as users_login}
use featureflag_api.Users.Mutations as UsersMutations
use featureflag_api.Transport.{Libraries, Resolver, ExperimentsService}

abbrev pub writers : List String
writers = "admin" ∷ "developer" ∷ []

abbrev pub admins : List String
admins = "admin" ∷ []

-- `auth.RequireRole`, then `auth.WithActorID` with the user that it returns.
unfoldable pub as_actor : List String → Context → Exec World Context
as_actor roles ctx = do actor_id ← lift (require_role ctx roles); pure (with_actor_id ctx actor_id)

-- `r.experiments == nil`
unfoldable pub create_experiment_with :
    Option ExperimentsService → Context → CreateExperimentInput → Exec World Model.Experiment
create_experiment_with none ctx input = raise (plain "experiments service not configured")
create_experiment_with (some s) ctx input = s.create_experiment ctx input

module _ (lib : Libraries) (r : Resolver) where
  unfoldable pub create_flag : Context → CreateFlagInput → Exec World FeatureFlag
  unfolding as_actor
  create_flag ctx input = do actor ← as_actor writers ctx; Service.create_flag r.flags actor input

  unfoldable pub update_flag : Context → UpdateFlagInput → Exec World FeatureFlag
  unfolding as_actor
  update_flag ctx input = do actor ← as_actor writers ctx; Service.update_flag r.flags actor input

  unfoldable pub delete_flag : Context → String → String → Exec World Bool
  unfolding as_actor
  delete_flag ctx key environment = do
    actor ← as_actor writers ctx
    Delete.delete_flag r.flags actor key environment

  unfoldable pub create_user : Context → CreateUserInput → Exec World Model.User
  unfolding as_actor
  create_user ctx input = do
    actor ← as_actor admins ctx
    UsersMutations.create_user lib.bcrypt r.users actor input

  unfoldable pub update_user : Context → UpdateUserInput → Exec World Model.User
  unfolding as_actor
  update_user ctx input = do
    actor ← as_actor admins ctx
    UsersMutations.update_user lib.bcrypt r.users actor input

  unfoldable pub delete_user : Context → String → Exec World Bool
  unfolding as_actor
  delete_user ctx id = do actor ← as_actor admins ctx; UsersMutations.delete_user r.users actor id

  unfoldable pub create_experiment : Context → CreateExperimentInput → Exec World Model.Experiment
  unfolding as_actor create_experiment_with
  create_experiment ctx input = do
    actor ← as_actor writers ctx
    create_experiment_with r.experiments actor input

  -- `Login` needs no role.
  unfoldable pub login : Context → LoginInput → Exec World LoginPayload
  login ctx input = do
    user ← users_login lib.bcrypt r.users input.email input.password
    token ← lift (issue_token lib.jwt lib.now user.0 user.1 r.jwt_secret r.jwt_expiry)
    pure (record { token = token })
