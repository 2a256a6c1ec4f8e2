-- ===== src/Examples/Checks.antt =====
-- The audit list, a kept assignment and the enum texts on small inputs.
use featureflag_api.Prelude.{none, ◌≡◌, refl, ◌↔◌}
use featureflag_api.Prelude.{find_by, filter_by, sort_by, text_le, [], ◌∷◌}
use featureflag_api.Prelude.Int.{pos}
use featureflag_api.Exec.{ok}
use featureflag_api.Exec.Triple.{After}
use featureflag_api.Database.{World, on_db}
use featureflag_api.Database.Reading.{Unchanged}
use featureflag_api.Model
use featureflag_api.Model.{
  RuleInput, CreateFlagInput, role_unmarshal, role_string, strategy_unmarshal, strategy_string,
  rule_type_unmarshal, rule_type_string,
}
use featureflag_api.Model.Texts.{unmarshal_iff}
use featureflag_api.Audit.{ListFilter}
use featureflag_api.Audit.Postgres.{list}
use featureflag_api.Audit.Listing.{Page, list-Page}
use featureflag_api.Experiments.Service.{new_service}
use featureflag_api.Experiments.GetAssignment.{get_assignment}
use featureflag_api.Experiments.Sticky.{Assigned, Kept, get_assignment-Assigned}
use featureflag_api.Examples.{world, one_flag, working, variant_a, variant_b}

abbrev all_entries : ListFilter
all_entries = record { entity = none; action = none; actor_id = none }

list-Page_example :
    let out = list on_db all_entries (pos 1000) (pos 0) world in
    After (λ es v. Page all_entries es × Unchanged world v) (Unchanged world) out.0 out.1
list-Page_example = list-Page world all_entries (pos 1000) (pos 0)

-- The user ann has the variant A of the experiment e1.
abbrev one_experiment : World
one_experiment = record {
  committed = record one_flag {
    experiments = record { id = "e1"; key = "button"; environment = "prod" } ∷ [];
    experiment_variants = variant_a ∷ variant_b ∷ [];
    experiment_assignments =
        record { user_id = "ann"; experiment_id = "e1"; variant_id = "a" } ∷ [];
  };
  pending = none;
  last_commit = none;
  answers = working;
}

ann-Assigned : Assigned one_experiment.committed "ann" "button" "prod" variant_a
unfolding find_by filter_by sort_by text_le
ann-Assigned = record {
  experiment = _;
  stored = refl;
  assignment = _;
  assigned = refl;
  there = refl;
}

get_assignment-Assigned_example :
    Kept one_experiment variant_a (get_assignment new_service "ann" "button" "prod" one_experiment)
get_assignment-Assigned_example =
    get_assignment-Assigned one_experiment "ann" "button" "prod" variant_a (λ n. refl) refl
      ann-Assigned

unmarshal_iff_example :
    ((role_unmarshal "ATTRIBUTE" ≡ ok Model.Role.admin)
      ↔ ("ATTRIBUTE" ≡ role_string Model.Role.admin))
    × ((strategy_unmarshal "ATTRIBUTE" ≡ ok Model.RolloutStrategy.attribute)
        ↔ ("ATTRIBUTE" ≡ strategy_string Model.RolloutStrategy.attribute))
    × ((rule_type_unmarshal "ATTRIBUTE" ≡ ok Model.RolloutRuleType.attribute)
        ↔ ("ATTRIBUTE" ≡ rule_type_string Model.RolloutRuleType.attribute))
unmarshal_iff_example =
    unmarshal_iff "ATTRIBUTE" Model.Role.admin Model.RolloutStrategy.attribute
      Model.RolloutRuleType.attribute
