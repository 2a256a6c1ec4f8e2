-- ===== src/Examples/People.antt =====
-- Audited mutations of users and experiments by the user ann, on a server on which every statement
-- works.
use featureflag_api.Prelude.{none, some, [], ◌∷◌, refl, ◌<>◌, ◌=s◌}
use featureflag_api.Prelude.Int.{pos}
use featureflag_api.Exec.{ok}
use featureflag_api.Exec.Triple.{After}
use featureflag_api.Database.Atomic.{Committed, RolledBack}
use featureflag_api.Model
use featureflag_api.Model.{CreateUserInput, UpdateUserInput, CreateExperimentInput}
use featureflag_api.Users.Service.{Bcrypt, new_service_with_audit as users_service}
use featureflag_api.Experiments.Service.{
  new_service, new_service_with_audit as experiments_service, create_experiment,
}
use featureflag_api.Users.Mutations.{create_user, update_user, delete_user}
use featureflag_api.Users.Deletion.{Finished, UserDeleted, delete_user_fail_closed}
use featureflag_api.Experiments.FailClosed.{
  ExperimentCreation, Creation, create_experiment_fail_closed, create_experiment_atomic,
}
use featureflag_api.Auth.{background, actor_id_from_context}
use featureflag_api.Attribution.{IsRefused, audited_IsRefused}
use featureflag_api.Flags.Service.{
  create_flag, update_flag, new_service_with_audit as flags_service,
}
use featureflag_api.Flags.Delete.{delete_flag}
use featureflag_api.Examples.Mutations.{new_checkout, off}
use featureflag_api.Examples.{world, by_ann, one_flag}

-- A hash that shows the password, for the examples only.
abbrev pub open_hash : Bcrypt
open_hash = record {
  hash_password = λ p. ok ("hash-of-" <> p);
  password_matches = λ h p. h =s ("hash-of-" <> p);
}

abbrev pub bob : CreateUserInput
bob = record { email = "bob@example.org"; role = Model.Role.viewer; password = some "pw" }

abbrev new_role : UpdateUserInput
new_role = record { id = "ann"; email = none; role = some Model.Role.developer; password = none }

delete_user_fail_closed_example :
    let out = delete_user users_service by_ann "ann" world in
    After
      (Finished one_flag by_ann "ann")
      (RolledBack one_flag (UserDeleted one_flag by_ann "ann"))
      out.0
      out.1
delete_user_fail_closed_example = delete_user_fail_closed world by_ann "ann" refl

abbrev pub button : CreateExperimentInput
button = record {
  key = "button";
  environment = "prod";
  variants = record { name = "A"; weight = pos 60 } ∷ record { name = "B"; weight = pos 40 } ∷ [];
}

create_experiment_fail_closed_example :
    let R = ExperimentCreation by_ann one_flag button in
    let out = create_experiment experiments_service by_ann button world in
    After (Committed R) (RolledBack one_flag R) out.0 out.1
create_experiment_fail_closed_example = create_experiment_fail_closed world by_ann button refl

create_experiment_atomic_example :
    let R = Creation one_flag button in
    let out = create_experiment new_service by_ann button world in
    After (Committed R) (RolledBack one_flag R) out.0 out.1
create_experiment_atomic_example = create_experiment_atomic world by_ann button refl

audited_IsRefused_example :
    (IsRefused (create_flag flags_service background new_checkout) world
      × IsRefused (update_flag flags_service background off) world
      × IsRefused (delete_flag flags_service background "dark_mode" "prod") world)
    × (IsRefused (create_user open_hash users_service background bob) world
        × IsRefused (update_user open_hash users_service background new_role) world
        × IsRefused (delete_user users_service background "ann") world)
    × IsRefused (create_experiment experiments_service background button) world
unfolding actor_id_from_context
audited_IsRefused_example =
    audited_IsRefused open_hash background world new_checkout off "dark_mode" "prod" bob new_role
      "ann" button refl
