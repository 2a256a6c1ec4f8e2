-- ===== src/Examples/Reading.antt =====
-- An evaluation and logins on the tables with the flag dark_mode and the user ann.
use mathlib.Core.Option.{some-injective}
use featureflag_api.Prelude.{ap, ◌∙◌, subst, sym, ◌=s◌}
use featureflag_api.Schema.{User}
use featureflag_api.Prelude.{String, true, Option, none, ◌≡◌, refl, ◌↔◌}
use featureflag_api.Prelude.{find_by}
use featureflag_api.Errors.{users}
use featureflag_api.Errors.Domain.{invalid_credentials}
use featureflag_api.Exec.{ok, err}
use featureflag_api.Model.{EvaluationContextInput}
use featureflag_api.Flags.Service.{new_service as flags_service}
use featureflag_api.Flags.Evaluate.{AttributeCondition}
use featureflag_api.Users.Service.{login, new_service as users_service}
use featureflag_api.Users.SignIn.{SignedIn, login_iff, login_refused}
use featureflag_api.Examples.{world, ann, one_flag}
use featureflag_api.Examples.People.{open_hash}

abbrev u1 : EvaluationContextInput
u1 = record { user_id = "u1"; email = none }

-- No value is a condition.
abbrev no_condition : String → Option AttributeCondition
no_condition text = none

login_iff_example :
    ((login open_hash users_service "ann@example.org" "secret" world).0 ≡ ok ("ann", "admin"))
    ↔ SignedIn open_hash one_flag "ann@example.org" "secret" ("ann", "admin")
login_iff_example =
    login_iff open_hash world "ann@example.org" "secret" ("ann", "admin") (λ n. refl)

guess_refused :
    (reply : String × String) → ¬ (SignedIn open_hash one_flag "ann@example.org" "guess" reply)
unfolding find_by
guess_refused reply s =
    let same = some-injective ann s.user s.stored in
    let hash =
      some-injective "hash-of-secret" s.hash
        (ap (λ (u : User). u.password_hash) same ∙ s.hash_is) in
    let bad = subst (λ h. (h =s "hash-of-guess") ≡ true) (sym hash) s.password_matches in cc bad

login_refused_example :
    (login open_hash users_service "ann@example.org" "guess" world).0
    ≡ err (users (invalid_credentials "ann@example.org"))
login_refused_example =
    login_refused open_hash world "ann@example.org" "guess" (λ n. refl) guess_refused
