-- ===== src/Examples/ErrorTexts.antt =====
-- The texts of errors and what the presenter makes of them.
use featureflag_api.Prelude.{◌≡◌, refl, [], ◌∷◌}
use featureflag_api.Prelude.{◌<>◌}
use featureflag_api.Prelude.{leb}
use featureflag_api.Prelude.Int.{pos}
use featureflag_api.Errors.{plain, auth, wrapped, users, flags, flags_operation, experiments}
use featureflag_api.Errors.Verbs.{TextLibrary}
use featureflag_api.Errors.Text.{error_text}
use featureflag_api.Transport.ErrorShaping.{Presenter, present_error}
use featureflag_api.Transport.ErrorShaping.Presented.{Refusal, Caused, present_error-Caused}
use featureflag_api.Errors.Domain.{
  forbidden, invalid_credentials, invalid_weights, not_found, duplicate_key,
}

abbrev texts : TextLibrary
texts = record { is_print = λ c. leb 0xA1 c; pg_text = λ code. "ERROR: (SQLSTATE " <> code <> ")" }

abbrev shown : Presenter
shown e = record { message = error_text texts e; extensions = [] }

present_error-Caused_example :
    present_error texts shown (wrapped "login" (users (invalid_credentials "ann@example.org")))
    ≡ record { message = "invalid credentials"; extensions = ("code", "INVALID_CREDENTIALS") ∷ [] }
unfolding error_text
present_error-Caused_example =
    present_error-Caused texts shown Refusal.wrong_password
      (wrapped "login" (users (invalid_credentials "ann@example.org"))) (λ message. refl)
      (Caused.in_wrapped "login" _ (Caused.by_password "ann@example.org" refl))

-- The texts that the tests of internal/*/errors_test.go expect.
error_texts :
    (error_text texts (
        flags_operation
          (record {
            op = "flags.repo.get_rules_by_flag_id.scan";
            key = "";
            environment = "";
            flag_id = "f2";
          })
          (plain "db failure B"))
      ≡ "flags: operation=\"flags.repo.get_rules_by_flag_id.scan\" key=\"\" environment=\"\" "
        <> "flag_id=\"f2\": db failure B")
    × (error_text texts (experiments (invalid_weights (pos 110) (pos 60 ∷ pos 50 ∷ []) ""))
        ≡ "experiments: variant weights must sum to 100, got sum=110 weights=[60 50]")
    × (error_text texts (auth (forbidden "viewer" ("admin" ∷ "developer" ∷ [])))
        ≡ "auth: forbidden (role \"viewer\" not in allowed [admin developer])")
    × (error_text texts (users (not_found "" "a\"b\n\u{1}é"))
        ≡ "users: user not found email=\"a\\\"b\\n\\x01é\"")
unfolding error_text
error_texts = (refl, refl, refl, refl)

-- A key that holds the words "service not configured" turns the error of a flag that is there already
-- into an internal error.
shown_as_internal :
    present_error texts shown (flags (duplicate_key "service not configured" "prod"))
    ≡ record { message = "internal error"; extensions = ("code", "INTERNAL") ∷ [] }
unfolding present_error error_text
shown_as_internal = refl
