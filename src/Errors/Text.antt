-- ===== src/Errors/Text.antt =====
-- The texts of the errors: the `Error` methods of internal/*/errors.go and internal/config/config.go.
use featureflag_api.Prelude.{String, List, ◌<>◌, ◌=s◌, if◌then◌else◌}
use featureflag_api.Prelude.Int.{pos}
use featureflag_api.Errors.Verbs.{TextLibrary, quote, decimal, bracketed}
use featureflag_api.Errors.{
  GoError, no_rows, tx_done, pg_error, plain, wrapped, flags, flags_operation, experiments,
  experiments_operation, users, users_operation, audit, audit_operation, auth, config,
}
use featureflag_api.Errors.Domain.{
  FlagsError, FlagsOperation, ExperimentsError, ExperimentsOperation, UsersError, UsersOperation,
  AuditError, AuditOperation, AuthError, ConfigError,
}

unfoldable pub audit_text : AuditError → String
audit_text AuditError.missing_actor_id = "audit: missing actor id in context"
audit_text AuditError.tx_starter_required = "audit: audit store cannot start transactions"
audit_text AuditError.tx_aware_required = "audit: audit store is not tx-aware"
audit_text AuditError.nil_entry = "audit store: entry is nil"
audit_text AuditError.begin_tx_unsupported = "audit store: BeginTx not supported on tx-scoped store"
audit_text AuditError.negative_offset = "offset must be >= 0"

unfoldable pub config_text : ConfigError → String
unfolding decimal
config_text (ConfigError.missing_jwt_secret env_var) =
    "config: " <> env_var <> " must be set (empty or unset)"
config_text (ConfigError.weak_jwt_secret min_length actual_length) =
    "config: JWT_SECRET too short (min="
    <> decimal (pos min_length)
    <> " actual="
    <> decimal (pos actual_length)
    <> ")"

module _ (lib : TextLibrary) where
  unfoldable pub flags_text : FlagsError → String
  unfolding quote bracketed
  flags_text (FlagsError.duplicate_key key environment) =
      "flags: duplicate key=" <> quote lib key <> " environment=" <> quote lib environment
  flags_text (FlagsError.not_found key environment id) =
      if id =s ""
      then "flags: flag not found key=" <> quote lib key <> " environment=" <> quote lib environment
      else "flags: flag not found id=" <> quote lib id
  flags_text (FlagsError.invalid_user_id user_id) =
      "flags: invalid user ID (got " <> quote lib user_id <> ")"
  flags_text (FlagsError.invalid_rule value op reason) =
      if reason =s ""
      then if op =s ""
        then "flags: invalid rule value=" <> quote lib value
        else "flags: invalid rule op=" <> quote lib op <> " value=" <> quote lib value
      else "flags: invalid rule (" <> reason <> ") value=" <> quote lib value
  flags_text (FlagsError.rules_strategy_mismatch current List.[] message) =
      if message =s ""
      then "flags: rules strategy mismatch (current=" <> quote lib current <> ")"
      else "flags: rules strategy mismatch (current=" <> quote lib current <> "): " <> message
  flags_text (FlagsError.rules_strategy_mismatch current (List.◌∷◌ r rs) message) =
      if message =s ""
      then "flags: rules do not match (mixed types " <> bracketed (λ s. s) (List.◌∷◌ r rs) <> ")"
      else "flags: rules strategy mismatch (current=" <> quote lib current <> "): " <> message

  unfoldable pub flags_operation_text : FlagsOperation → String
  unfolding quote
  flags_operation_text o =
      "flags: operation="
      <> quote lib o.op
      <> " key="
      <> quote lib o.key
      <> " environment="
      <> quote lib o.environment
      <> " flag_id="
      <> quote lib o.flag_id
      <> ": "

  unfoldable pub experiments_text : ExperimentsError → String
  unfolding quote bracketed decimal
  experiments_text (ExperimentsError.invalid_weights sum weights reason) =
      if reason =s ""
      then "experiments: variant weights must sum to 100, got sum="
        <> decimal sum
        <> " weights="
        <> bracketed decimal weights
      else "experiments: variant weights must sum to 100 ("
        <> reason
        <> "): sum="
        <> decimal sum
        <> " weights="
        <> bracketed decimal weights
  experiments_text (ExperimentsError.experiment_not_found key environment) =
      "experiments: experiment not found key="
      <> quote lib key
      <> " environment="
      <> quote lib environment
  experiments_text (ExperimentsError.duplicate_experiment key environment) =
      "experiments: duplicate experiment key="
      <> quote lib key
      <> " environment="
      <> quote lib environment
  experiments_text (ExperimentsError.variant_not_found variant_id key environment) =
      if variant_id =s ""
      then "experiments: no variants for experiment key="
        <> quote lib key
        <> " environment="
        <> quote lib environment
      else "experiments: variant not found variant_id=" <> quote lib variant_id
  experiments_text (ExperimentsError.invalid_user_id user_id) =
      "experiments: invalid user ID (got " <> quote lib user_id <> ")"

  unfoldable pub experiments_operation_text : ExperimentsOperation → String
  unfolding quote decimal
  experiments_operation_text o =
      "experiments: operation="
      <> quote lib o.op
      <> " key="
      <> quote lib o.key
      <> " environment="
      <> quote lib o.environment
      <> " experiment_id="
      <> quote lib o.experiment_id
      <> " user_id="
      <> quote lib o.user_id
      <> " variant_id="
      <> quote lib o.variant_id
      <> " variant_name="
      <> quote lib o.variant_name
      <> " variant_weight="
      <> decimal o.variant_weight
      <> ": "

  unfoldable pub users_text : UsersError → String
  unfolding quote
  users_text (UsersError.duplicate_email email) = "users: duplicate email=" <> quote lib email
  users_text (UsersError.not_found id email) =
      if id =s ""
      then "users: user not found email=" <> quote lib email
      else "users: user not found id=" <> quote lib id
  users_text (UsersError.invalid_credentials email) = "users: invalid credentials"

  unfoldable pub users_operation_text : UsersOperation → String
  unfolding quote
  users_operation_text o =
      "users: operation="
      <> quote lib o.op
      <> " id="
      <> quote lib o.id
      <> " email="
      <> quote lib o.email
      <> " role="
      <> quote lib o.role
      <> ": "

  unfoldable pub audit_operation_text : AuditOperation → String
  unfolding quote decimal
  audit_operation_text o =
      "audit: operation="
      <> quote lib o.op
      <> " id="
      <> quote lib o.id
      <> " entity="
      <> quote lib o.entity
      <> " entity_id="
      <> quote lib o.entity_id
      <> " action="
      <> quote lib o.action
      <> " actor_id="
      <> quote lib o.actor_id
      <> " limit="
      <> decimal o.limit
      <> " offset="
      <> decimal o.offset
      <> ": "

  unfoldable pub auth_text : AuthError → String
  unfolding quote bracketed
  auth_text (AuthError.unauthorized reason) =
      if reason =s ""
      then "auth: unauthorized (no or invalid claims)"
      else "auth: unauthorized: " <> reason
  auth_text (AuthError.forbidden role allowed_roles) =
      "auth: forbidden (role "
      <> quote lib role
      <> " not in allowed "
      <> bracketed (λ s. s) allowed_roles
      <> ")"

  unfoldable pub error_text : GoError → String
  unfolding flags_text flags_operation_text experiments_text experiments_operation_text users_text
      users_operation_text audit_operation_text auth_text audit_text config_text
  error_text no_rows = "sql: no rows in result set"
  error_text tx_done = "sql: transaction has already been committed or rolled back"
  error_text (pg_error code) = lib.pg_text code
  error_text (plain message) = message
  error_text (wrapped message e) = message <> ": " <> error_text e
  error_text (flags e) = flags_text e
  error_text (flags_operation o e) = flags_operation_text o <> error_text e
  error_text (experiments e) = experiments_text e
  error_text (experiments_operation o e) = experiments_operation_text o <> error_text e
  error_text (users e) = users_text e
  error_text (users_operation o e) = users_operation_text o <> error_text e
  error_text (audit e) = audit_text e
  error_text (audit_operation o e) = audit_operation_text o <> error_text e
  error_text (auth e) = auth_text e
  error_text (config e) = config_text e
