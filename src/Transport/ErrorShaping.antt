-- ===== src/Transport/ErrorShaping.antt =====
-- transport/graphql/error_shaping.go: what a client sees of an error.
pub mod Presented
use featureflag_api.Prelude.{String, Bool, true, false, List, [], ◌∷◌, ◌++◌, ◌=s◌, if◌then◌else◌}
use featureflag_api.Prelude.{contains}
use featureflag_api.Errors.{GoError, chain_any, auth, users, plain}
use featureflag_api.Errors.Domain.{unauthorized, forbidden, invalid_credentials}
use featureflag_api.Errors.Verbs.{TextLibrary}
use featureflag_api.Errors.Text.{error_text}

-- `gqlerror.Error`, without the path and the locations, which the code leaves as they are.
pub record GqlError : Type 0 where
  pub message : String
  pub extensions : List (String × String)

-- `graphql.DefaultErrorPresenter(ctx, err)`
abbrev pub Presenter : Type 0
Presenter = GoError → GqlError

abbrev pub service_not_configured : String
service_not_configured = "service not configured"

is_unauthorized : GoError → Bool
is_unauthorized (auth (unauthorized reason)) = true
is_unauthorized _ = false

is_forbidden : GoError → Bool
is_forbidden (auth (forbidden role allowed)) = true
is_forbidden _ = false

is_invalid_credentials : GoError → Bool
is_invalid_credentials (users (invalid_credentials email)) = true
is_invalid_credentials _ = false

unfoldable pub is_unauthorized_error : GoError → Bool
unfolding chain_any is_unauthorized
is_unauthorized_error = chain_any is_unauthorized

unfoldable pub is_forbidden_error : GoError → Bool
unfolding chain_any is_forbidden
is_forbidden_error = chain_any is_forbidden

unfoldable pub is_invalid_credentials_error : GoError → Bool
unfolding chain_any is_invalid_credentials
is_invalid_credentials_error = chain_any is_invalid_credentials

unfoldable pub is_internal_config_error : TextLibrary → GoError → Bool
unfolding error_text contains
is_internal_config_error lib e = contains (error_text lib e) service_not_configured

-- `m[key] = value`
unfoldable pub set_extension : String → String → List (String × String) → List (String × String)
set_extension key value [] = (key, value) ∷ []
set_extension key value (x ∷ rest) =
    let others = set_extension key value rest in
    if x.0 =s key then (key, value) ∷ rest else x ∷ others

unfoldable pub present_with_code : Presenter → String → String → GqlError
unfolding set_extension
present_with_code presenter message code =
    let ge = presenter (plain message) in
    record ge { extensions = set_extension "code" code ge.extensions }

unfoldable pub present_error : TextLibrary → Presenter → GoError → GqlError
unfolding is_unauthorized_error is_forbidden_error is_invalid_credentials_error
    is_internal_config_error present_with_code
present_error lib presenter e =
    if is_unauthorized_error e
    then present_with_code presenter "unauthorized" "UNAUTHORIZED"
    else if is_forbidden_error e
    then present_with_code presenter "forbidden" "FORBIDDEN"
    else if is_invalid_credentials_error e
    then present_with_code presenter "invalid credentials" "INVALID_CREDENTIALS"
    else if is_internal_config_error lib e
    then present_with_code presenter "internal error" "INTERNAL"
    else presenter e
