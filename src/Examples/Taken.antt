-- ===== src/Examples/Taken.antt =====
-- A flag and a user that are there already, asked for again.
use featureflag_api.Prelude.{refl, none, [], find_by}
use featureflag_api.Errors.{flags, users}
use featureflag_api.Errors.Domain.{duplicate_key, duplicate_email}
use featureflag_api.Auth.{actor_id_from_context}
use featureflag_api.Database.Reading.{Refuses}
use featureflag_api.Model
use featureflag_api.Model.{CreateFlagInput, CreateUserInput}
use featureflag_api.Flags.Service.{create_flag}
use featureflag_api.Flags.Service as FlagsService
use featureflag_api.Flags.Taken.{create_flag_taken}
use featureflag_api.Users.Service as UsersService
use featureflag_api.Users.Mutations.{create_user}
use featureflag_api.Users.Taken.{create_user_taken}
use featureflag_api.Examples.{world, by_ann, dark_mode, ann}
use featureflag_api.Examples.People.{open_hash}

abbrev dark_again : CreateFlagInput
dark_again = record {
  key = "dark_mode";
  description = none;
  environment = "prod";
  rollout_strategy = none;
  rules = [];
}

create_flag_taken_example :
    let taken = flags (duplicate_key "dark_mode" "prod") in
    Refuses world taken (create_flag FlagsService.new_service_with_audit by_ann dark_again world)
    × Refuses world taken (create_flag FlagsService.new_service by_ann dark_again world)
unfolding actor_id_from_context find_by
create_flag_taken_example =
    create_flag_taken world by_ann dark_again dark_mode "ann" (λ n. refl) refl refl refl

abbrev ann_again : CreateUserInput
ann_again = record { email = "ann@example.org"; role = Model.Role.viewer; password = none }

create_user_taken_example :
    let taken = users (duplicate_email "ann@example.org") in
    Refuses world taken
      (create_user open_hash UsersService.new_service_with_audit by_ann ann_again world)
    × Refuses world taken (create_user open_hash UsersService.new_service by_ann ann_again world)
unfolding actor_id_from_context find_by
create_user_taken_example =
    create_user_taken open_hash world by_ann ann_again ann "ann" (λ n. refl) refl refl refl
