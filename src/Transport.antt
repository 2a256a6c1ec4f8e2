-- ===== src/Transport.antt =====
-- transport/graphql: the root resolver (resolver.go). The resolvers of mutations and queries and the
-- presentation of errors are the modules below.
pub mod Mutations
pub mod Queries
pub mod Requests
pub mod Access
pub mod ErrorShaping
use featureflag_api.Prelude.{ℕ, String, Option, some}
use featureflag_api.Prelude.Int.{ℤ, pos}
use featureflag_api.Exec.{Exec}
use featureflag_api.Auth.{Context}
use featureflag_api.Auth.Token.{JwtLibrary}
use featureflag_api.Audit.Service.{Service as AuditService}
use featureflag_api.Database.{World}
use featureflag_api.Model.{CreateExperimentInput, Experiment, ExperimentVariant}
use featureflag_api.Flags.Service.{Service as FlagsService}
use featureflag_api.Flags.Evaluate.{AttributeCondition}
use featureflag_api.Users.Service.{Service as UsersService, Bcrypt}
use featureflag_api.Experiments.Service.{
  Service as ExperimentsServiceImpl, create_experiment, get_experiment,
}
use featureflag_api.Experiments.GetAssignment.{get_assignment}

-- The libraries that the resolvers reach, and `time.Now()`.
pub record Libraries : Type 0 where
  pub bcrypt : Bcrypt
  pub jwt : JwtLibrary
  pub unmarshal : String → Option AttributeCondition
  pub now : ℕ

-- `ExperimentsService`
pub record ExperimentsService : Type 0 where
  pub create_experiment : Context → CreateExperimentInput → Exec World Experiment
  pub get_experiment : String → String → Exec World Experiment
  pub get_assignment : String → String → String → Exec World ExperimentVariant

pub record Resolver : Type 0 where
  pub flags : FlagsService
  pub users : UsersService
  pub experiments : Option ExperimentsService
  pub audit : Option AuditService
  pub jwt_secret : String
  pub jwt_expiry : ℤ

-- `*experiments.Service` as an `ExperimentsService`
unfoldable pub experiments_service : ExperimentsServiceImpl → ExperimentsService
experiments_service s = record {
  create_experiment = create_experiment s;
  get_experiment = get_experiment s;
  get_assignment = get_assignment s;
}
