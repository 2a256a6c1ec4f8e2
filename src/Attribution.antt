-- ===== src/Attribution.antt =====
-- The audited operations of internal/flags, internal/users and internal/experiments for a request
-- that names no actor.
use featureflag_api.Prelude.{String, none, ◌≡◌}
use featureflag_api.Errors.{audit}
use featureflag_api.Errors.Domain.{missing_actor_id}
use featureflag_api.Exec.{err, Exec}
use featureflag_api.Auth.{Context, actor_id_from_context}
use featureflag_api.Audit.Write.{prepare_write_tx, with_actor}
use featureflag_api.Database.{World}
use featureflag_api.Model.{
  CreateFlagInput, UpdateFlagInput, CreateUserInput, UpdateUserInput, CreateExperimentInput,
}
use featureflag_api.Flags.Service.{
  create_flag, update_flag, new_service_with_audit as flags_service,
  prepare_audit_tx as prepare_flags_tx,
}
use featureflag_api.Flags.Delete.{delete_flag}
use featureflag_api.Users.Service.{Bcrypt, new_service_with_audit as users_service}
use featureflag_api.Users.Mutations.{
  create_user, update_user, delete_user, prepare_audit_tx as prepare_users_tx, delete_by,
}
use featureflag_api.Experiments.Service.{
  create_experiment, new_service_with_audit as experiments_service, new_service, create_by,
  prepare_audit_tx as prepare_experiments_tx,
}

-- The operation gives the error of a missing actor and leaves the state as it is.
abbrev pub IsRefused : {A : Type 0} → Exec World A → World → Type 0
IsRefused m w = m w ≡ (err (audit missing_actor_id), w)

module _ (bcrypt : Bcrypt) (ctx : Context) (w : World)
    (nobody : actor_id_from_context ctx ≡ none) where
  flags-IsRefused :
      (create : CreateFlagInput) (update : UpdateFlagInput) (key env : String)
      → IsRefused (create_flag flags_service ctx create) w
        × IsRefused (update_flag flags_service ctx update) w
        × IsRefused (delete_flag flags_service ctx key env) w
  unfolding create_flag update_flag delete_flag flags_service prepare_flags_tx prepare_write_tx
      with_actor
  flags-IsRefused create update key env = (rw nobody, rw nobody, rw nobody)

  users-IsRefused :
      (create : CreateUserInput) (update : UpdateUserInput) (id : String)
      → IsRefused (create_user bcrypt users_service ctx create) w
        × IsRefused (update_user bcrypt users_service ctx update) w
        × IsRefused (delete_user users_service ctx id) w
  unfolding create_user update_user delete_user delete_by users_service prepare_users_tx
      prepare_write_tx with_actor
  users-IsRefused create update id = (rw nobody, rw nobody, rw nobody)

  experiments-IsRefused :
      (create : CreateExperimentInput)
      → IsRefused (create_experiment experiments_service ctx create) w
  unfolding create_experiment create_by experiments_service new_service prepare_experiments_tx
      prepare_write_tx with_actor
  experiments-IsRefused create = rw nobody

-- Without an actor in its context no audited operation of the flags, users and experiments services
-- does anything: each gives the error of a missing actor, before any statement is sent.
pub audited_IsRefused :
    (bcrypt : Bcrypt) (ctx : Context) (w : World) (flag : CreateFlagInput)
    (flag_update : UpdateFlagInput) (key env : String) (user : CreateUserInput)
    (user_update : UpdateUserInput) (id : String) (experiment : CreateExperimentInput)
    → actor_id_from_context ctx ≡ none
    → (IsRefused (create_flag flags_service ctx flag) w
        × IsRefused (update_flag flags_service ctx flag_update) w
        × IsRefused (delete_flag flags_service ctx key env) w)
      × (IsRefused (create_user bcrypt users_service ctx user) w
          × IsRefused (update_user bcrypt users_service ctx user_update) w
          × IsRefused (delete_user users_service ctx id) w)
      × IsRefused (create_experiment experiments_service ctx experiment) w
audited_IsRefused bcrypt ctx w flag flag_update key env user user_update id experiment nobody = (
  flags-IsRefused bcrypt ctx w nobody flag flag_update key env,
  users-IsRefused bcrypt ctx w nobody user user_update id,
  experiments-IsRefused bcrypt ctx w nobody experiment,
)
