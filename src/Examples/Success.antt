-- ===== src/Examples/Success.antt =====
-- Audited mutations by the user ann that succeed.
use featureflag_api.Prelude.{◌≡◌, refl, true, find_by, exists_by, count_by}
use featureflag_api.Exec.{ok}
use featureflag_api.Auth.{actor_id_from_context}
use featureflag_api.Model
use featureflag_api.Prelude.{none, []}
use featureflag_api.Flags.Service.{create_flag, new_flag, new_service_with_audit as flags_service}
use featureflag_api.Flags.Delete.{delete_flag}
use featureflag_api.Flags.Success.{delete_flag_succeeds, create_flag_succeeds}
use featureflag_api.Flags.Rules.{
  flag_to_model, resolve_strategy_for_create, strategy_for_rules, rollout_strategy_from_model,
}
use featureflag_api.Schema.{RolloutStrategy}
use featureflag_api.Model.{CreateFlagInput}
use featureflag_api.Users.Service.{new_service_with_audit as users_service}
use featureflag_api.Users.Mutations.{create_user}
use featureflag_api.Users.Success.{create_user_succeeds}
use featureflag_api.Examples.{world, by_ann, dark_mode}
use featureflag_api.Examples.People.{open_hash, bob}

delete_flag_succeeds_example :
    (delete_flag flags_service by_ann "dark_mode" "prod" world).0 ≡ ok true
unfolding actor_id_from_context find_by exists_by count_by
delete_flag_succeeds_example =
    delete_flag_succeeds world by_ann "dark_mode" "prod" "ann" dark_mode 0 (λ n. refl) refl refl
      refl refl

create_user_succeeds_example :
    (create_user open_hash users_service by_ann bob world).0
    ≡ ok (record { id = "id"; email = "bob@example.org"; role = Model.Role.viewer; created_at = 2 })
unfolding actor_id_from_context exists_by
create_user_succeeds_example =
    create_user_succeeds open_hash world by_ann bob "ann" "pw" "hash-of-pw" (λ n. refl) refl refl
      refl refl refl refl refl

abbrev plain_flag : CreateFlagInput
plain_flag = record {
  key = "plain";
  description = none;
  environment = "prod";
  rollout_strategy = none;
  rules = [];
}

create_flag_succeeds_example :
    (create_flag flags_service by_ann plain_flag world).0
    ≡ ok (flag_to_model (record (new_flag plain_flag RolloutStrategy.none) { id = "id" }))
unfolding actor_id_from_context exists_by resolve_strategy_for_create strategy_for_rules
    rollout_strategy_from_model
create_flag_succeeds_example =
    create_flag_succeeds world by_ann plain_flag "ann" RolloutStrategy.none (λ n. refl) refl refl
      refl refl refl refl
