-- ===== src/App/Invariants.antt =====
-- What an invariant of the tables asks of the changes of the services.
pub mod Sequences
use featureflag_api.Prelude.{String, Bool, true, false, none, List, [], ◌∷◌, ◌++◌, ◌≡◌, refl, sym}
use featureflag_api.Prelude.{subst, inl, inr}
use featureflag_api.Exec.{Result, ok, err}
use featureflag_api.Exec.Triple.{After}
use featureflag_api.Auth.{Context, with_actor_id}
use featureflag_api.Audit.{
  entity_feature_flag, entity_user, entity_experiment, action_create, action_update, action_delete,
}
use featureflag_api.Audit.Recorded.{Attributed}
use featureflag_api.Schema.{Tables, Flag, User, Experiment, Entry, Assignment}
use featureflag_api.Database.{World}
use featureflag_api.Database.Atomic.{Committed, RolledBack}
use featureflag_api.Database.Keeping.{Stands}
use featureflag_api.Model.{
  CreateFlagInput, UpdateFlagInput, CreateUserInput, UpdateUserInput, CreateExperimentInput,
}
use featureflag_api.Flags.Rules.{flag_to_model}
use featureflag_api.Flags.Changes as FlagsChanges
use featureflag_api.Flags.FailClosed.{
  create_flag_fail_closed, update_flag_fail_closed, delete_flag_fail_closed,
}
use featureflag_api.Users.Service.{Bcrypt, user_to_model}
use featureflag_api.Users.Effects as UsersEffects
use featureflag_api.Users.Deletion as UsersDeletion
use featureflag_api.Users.Deletion.{Finished, UserDeleted, delete_user_fail_closed}
use featureflag_api.Users.FailClosed.{create_user_fail_closed, update_user_fail_closed}
use featureflag_api.Experiments.Service.{experiment_to_model}
use featureflag_api.Experiments.Effects as ExperimentsEffects
use featureflag_api.Experiments.FailClosed.{create_experiment_fail_closed}
use featureflag_api.App.{new_app_resolver}
use featureflag_api.App.Reads.{OnlyAssigned}
use featureflag_api.App.History.{acting}
use featureflag_api.App.History.Sequences.{Call, after, serve_all, resolve-Settled}
use featureflag_api.App.History.Queries.{
  evaluate_flag-Stands, user-Stands, user_by_email-Stands, experiment-Stands, get_assignment-Stands,
  audit_log-Stands, audit_logs-Stands, login-Stands,
}
use featureflag_api.Transport.{Libraries, experiments_service}
use featureflag_api.Transport.Mutations.{
  create_flag, update_flag, delete_flag, create_user, update_user, delete_user, create_experiment,
  create_experiment_with,
}
use featureflag_api.Transport.Requests.{Request, resolve}

-- The changes of the services keep `P`.
pub record IsKept (bcrypt : Bcrypt) (P : Tables → Type 0) : Type 0 where
  pub log_grows : (t : Tables) (es : List Entry) → P t → P (record t { audit_logs = es })
  pub assigned :
      (t : Tables) (rows : List Assignment) → P t → P (record t { experiment_assignments = rows })
  pub flag_created :
      (c : Tables) (input : CreateFlagInput) (row : Flag) (t : Tables)
      → P c
      → FlagsChanges.CreatedFrom c input row t
      → P t
  pub flag_updated :
      (c : Tables) (input : UpdateFlagInput) (row : Flag) (t : Tables)
      → P c
      → FlagsChanges.UpdatedFrom c input row t
      → P t
  pub flag_deleted :
      (c : Tables) (key env id : String) (t : Tables)
      → P c
      → FlagsChanges.DeletedFrom c key env id t
      → P t
  pub user_created :
      (c : Tables) (input : CreateUserInput) (row : User) (t : Tables)
      → P c
      → UsersEffects.CreatedFrom bcrypt c input row t
      → P t
  pub user_updated :
      (c : Tables) (input : UpdateUserInput) (row : User) (t : Tables)
      → P c
      → UsersEffects.UpdatedFrom bcrypt c input row t
      → P t
  pub user_deleted :
      (c : Tables) (id : String) (t : Tables) → P c → UsersDeletion.DeletedFrom c id t → P t
  pub experiment_created :
      (c : Tables) (input : CreateExperimentInput) (row : Experiment) (t : Tables)
      → P c
      → ExperimentsEffects.CreatedFrom c input row t
      → P t
