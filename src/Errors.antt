-- ===== src/Errors.antt =====
-- Go's `error` values: the error types of the packages (internal/*/errors.go), what the driver
-- returns, and the wrapping that `errors.As` and `errors.Is` see through (`Unwrap`).
pub mod Domain
pub mod Verbs
pub mod Text
use Prim.Native.String.{String}
use mathlib.Core.Bool.{Bool, true, false, ◌||◌}
use text.Mathlib.Text.{◌==◌}
use featureflag_api.Errors.Domain.{
  FlagsError, FlagsOperation, ExperimentsError, ExperimentsOperation, UsersError, UsersOperation,
  AuditError, AuditOperation, AuthError, ConfigError, not_found,
}

pub data GoError : Type 0 where
  -- sql.ErrNoRows, sql.ErrTxDone, and a *pgconn.PgError with its code
  no_rows tx_done : GoError
  pg_error : (code : String) → GoError
  -- errors.New(message), and any other error of a library
  plain : (message : String) → GoError
  -- fmt.Errorf("message: %w", cause)
  wrapped : (message : String) → GoError → GoError
  flags : FlagsError → GoError
  flags_operation : FlagsOperation → (cause : GoError) → GoError
  experiments : ExperimentsError → GoError
  experiments_operation : ExperimentsOperation → (cause : GoError) → GoError
  users : UsersError → GoError
  users_operation : UsersOperation → (cause : GoError) → GoError
  audit : AuditError → GoError
  audit_operation : AuditOperation → (cause : GoError) → GoError
  auth : AuthError → GoError
  config : ConfigError → GoError

-- `errors.As(err, &target)` and `errors.Is(err, target)` try a test on each error of the chain.
unfoldable pub chain_any : (GoError → Bool) → GoError → Bool
chain_any test (wrapped m e) = test (wrapped m e) || chain_any test e
chain_any test (flags_operation o e) = test (flags_operation o e) || chain_any test e
chain_any test (experiments_operation o e) = test (experiments_operation o e) || chain_any test e
chain_any test (users_operation o e) = test (users_operation o e) || chain_any test e
chain_any test (audit_operation o e) = test (audit_operation o e) || chain_any test e
chain_any test e = test e

is_code : String → GoError → Bool
is_code code (pg_error c) = c == code
is_code code _ = false

-- `errors.As(err, &pgErr) && pgErr.Code == "23505"`. The driver's errors hold one `*PgError` at most.
unfoldable pub is_unique_violation : GoError → Bool
unfolding chain_any is_code
is_unique_violation = chain_any (is_code "23505")

is_user_not_found : GoError → Bool
is_user_not_found (users (not_found id email)) = true
is_user_not_found _ = false

-- `var e *users.NotFoundError; errors.As(err, &e)`
unfoldable pub as_user_not_found : GoError → Bool
unfolding chain_any is_user_not_found
as_user_not_found = chain_any is_user_not_found
