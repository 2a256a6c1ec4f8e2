-- ===== src/Transport/ErrorShaping/Presented.antt =====
-- What a client sees of a refusal, however the services wrapped it.
use featureflag_api.Prelude.{String, true, false, List, [], ◌∷◌, ◌≡◌, ◌∙◌, refl}
use featureflag_api.Errors.{
  GoError, wrapped, flags_operation, experiments_operation, users_operation, audit_operation, auth,
  users, plain, chain_any,
}
use featureflag_api.Errors.Domain.{
  FlagsOperation, ExperimentsOperation, UsersOperation, AuditOperation, unauthorized, forbidden,
  invalid_credentials,
}
use featureflag_api.Errors.Verbs.{TextLibrary}
use featureflag_api.Transport.ErrorShaping.{
  Presenter, is_unauthorized, is_forbidden, is_invalid_credentials, is_unauthorized_error,
  is_forbidden_error, is_invalid_credentials_error, present_with_code, present_error, set_extension,
}

pub data Refusal : Type 0 where
  no_claims wrong_role wrong_password : Refusal

abbrev pub message_of : Refusal → String
message_of Refusal.no_claims = "unauthorized"
message_of Refusal.wrong_role = "forbidden"
message_of Refusal.wrong_password = "invalid credentials"

abbrev pub code_of : Refusal → String
code_of Refusal.no_claims = "UNAUTHORIZED"
code_of Refusal.wrong_role = "FORBIDDEN"
code_of Refusal.wrong_password = "INVALID_CREDENTIALS"

-- The refusal is at the end of the error's chain of causes.
pub data Caused (r : Refusal) : GoError → Type 0 where
  by_claims : (reason : String) → r ≡ Refusal.no_claims → Caused r (auth (unauthorized reason))
  by_role :
      (role : String) (allowed : List String)
      → r ≡ Refusal.wrong_role
      → Caused r (auth (forbidden role allowed))
  by_password :
      (email : String) → r ≡ Refusal.wrong_password → Caused r (users (invalid_credentials email))
  in_wrapped : (message : String) (e : GoError) → Caused r e → Caused r (wrapped message e)
  in_flags : (o : FlagsOperation) (e : GoError) → Caused r e → Caused r (flags_operation o e)
  in_experiments :
      (o : ExperimentsOperation) (e : GoError) → Caused r e → Caused r (experiments_operation o e)
  in_users : (o : UsersOperation) (e : GoError) → Caused r e → Caused r (users_operation o e)
  in_audit : (o : AuditOperation) (e : GoError) → Caused r e → Caused r (audit_operation o e)

-- The answers of the three tests.
abbrev IsTested : Refusal → GoError → Type 0
IsTested Refusal.no_claims e = is_unauthorized_error e ≡ true
IsTested Refusal.wrong_role e = (is_unauthorized_error e ≡ false) × (is_forbidden_error e ≡ true)
IsTested Refusal.wrong_password e =
    (is_unauthorized_error e ≡ false)
    × (is_forbidden_error e ≡ false)
    × (is_invalid_credentials_error e ≡ true)

same-IsTested :
    (r : Refusal) (e f : GoError)
    → is_unauthorized_error f ≡ is_unauthorized_error e
    → is_forbidden_error f ≡ is_forbidden_error e
    → is_invalid_credentials_error f ≡ is_invalid_credentials_error e
    → IsTested r e
    → IsTested r f
same-IsTested Refusal.no_claims e f p q s h = p ∙ h
same-IsTested Refusal.wrong_role e f p q s h = (p ∙ h.0, q ∙ h.1)
same-IsTested Refusal.wrong_password e f p q s h = (p ∙ h.0, q ∙ h.1, s ∙ h.2)

Caused-IsTested : (r : Refusal) (e : GoError) → Caused r e → IsTested r e
unfolding is_unauthorized_error is_forbidden_error is_invalid_credentials_error chain_any
    is_unauthorized is_forbidden is_invalid_credentials
Caused-IsTested r e (Caused.by_claims reason at) = rw at refl
Caused-IsTested r e (Caused.by_role role allowed at) = rw at (refl, refl)
Caused-IsTested r e (Caused.by_password email at) = rw at (refl, refl, refl)
Caused-IsTested r e (Caused.in_wrapped message cause h) =
    same-IsTested r cause _ refl refl refl (Caused-IsTested r cause h)
Caused-IsTested r e (Caused.in_flags o cause h) =
    same-IsTested r cause _ refl refl refl (Caused-IsTested r cause h)
Caused-IsTested r e (Caused.in_experiments o cause h) =
    same-IsTested r cause _ refl refl refl (Caused-IsTested r cause h)
Caused-IsTested r e (Caused.in_users o cause h) =
    same-IsTested r cause _ refl refl refl (Caused-IsTested r cause h)
Caused-IsTested r e (Caused.in_audit o cause h) =
    same-IsTested r cause _ refl refl refl (Caused-IsTested r cause h)

tested-present_error :
    (lib : TextLibrary) (presenter : Presenter) (r : Refusal) (e : GoError)
    → IsTested r e
    → present_error lib presenter e ≡ present_with_code presenter (message_of r) (code_of r)
unfolding present_error
tested-present_error lib presenter Refusal.no_claims e h = rw h
tested-present_error lib presenter Refusal.wrong_role e h = rw (h.0, h.1)
tested-present_error lib presenter Refusal.wrong_password e h = rw (h.0, h.1, h.2)

-- However often the services have wrapped it, an error of missing claims, of a role that is not
-- allowed or of a wrong password is shown with a fixed message and code for the three: neither the
-- role, nor the email, nor anything else of the error reaches the client.
pub present_error-Caused :
    (lib : TextLibrary) (presenter : Presenter) (r : Refusal) (e : GoError)
    → ((message : String)
        → presenter (plain message) ≡ record { message = message; extensions = [] })
    → Caused r e
    → present_error lib presenter e
      ≡ record { message = message_of r; extensions = ("code", code_of r) ∷ [] }
unfolding present_with_code set_extension
present_error-Caused lib presenter r e presents caused =
    rw
      (tested-present_error lib presenter r e (Caused-IsTested r e caused), presents (message_of r))
