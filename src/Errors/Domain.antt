-- ===== src/Errors/Domain.antt =====
-- The error types of internal/{flags,experiments,users,audit}/errors.go and internal/auth/errors.go.
-- An `OperationError` is given by its context here; its cause stands beside it in `GoError`.
use Prim.Native.Nat.{ℕ}
use Prim.Native.String.{String}
use mathlib.Core.List.{List}
use featureflag_api.Prelude.Int.{ℤ}

pub data FlagsError : Type 0 where
  duplicate_key : (key environment : String) → FlagsError
  not_found : (key environment id : String) → FlagsError
  invalid_user_id : (user_id : String) → FlagsError
  invalid_rule : (value op reason : String) → FlagsError
  rules_strategy_mismatch :
      (current_strategy : String) (rule_types : List String) (message : String) → FlagsError

pub record FlagsOperation : Type 0 where
  pub op : String
  pub key : String
  pub environment : String
  pub flag_id : String

pub data ExperimentsError : Type 0 where
  invalid_weights : (sum : ℤ) (weights : List ℤ) (reason : String) → ExperimentsError
  experiment_not_found : (key environment : String) → ExperimentsError
  duplicate_experiment : (key environment : String) → ExperimentsError
  variant_not_found : (variant_id experiment_key environment : String) → ExperimentsError
  invalid_user_id : (user_id : String) → ExperimentsError

pub record ExperimentsOperation : Type 0 where
  pub op : String
  pub key : String
  pub environment : String
  pub experiment_id : String
  pub user_id : String
  pub variant_id : String
  pub variant_name : String
  pub variant_weight : ℤ

pub data UsersError : Type 0 where
  duplicate_email : (email : String) → UsersError
  not_found : (id email : String) → UsersError
  invalid_credentials : (email : String) → UsersError

pub record UsersOperation : Type 0 where
  pub op : String
  pub id : String
  pub email : String
  pub role : String

pub data AuditError : Type 0 where
  missing_actor_id tx_starter_required tx_aware_required : AuditError
  nil_entry begin_tx_unsupported negative_offset : AuditError

pub record AuditOperation : Type 0 where
  pub op : String
  pub id : String
  pub entity : String
  pub entity_id : String
  pub action : String
  pub actor_id : String
  pub limit : ℤ
  pub offset : ℤ

pub data AuthError : Type 0 where
  unauthorized : (reason : String) → AuthError
  forbidden : (role : String) (allowed_roles : List String) → AuthError

-- internal/config/config.go
pub data ConfigError : Type 0 where
  missing_jwt_secret : (env_var : String) → ConfigError
  weak_jwt_secret : (min_length actual_length : ℕ) → ConfigError
