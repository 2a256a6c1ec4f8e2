-- ===== src/Transport/Queries.antt =====
-- transport/graphql/{flags,users,experiments,audit}.resolvers.go and audit_helpers.go: the queries.
use mathlib.Core.Option
use featureflag_api.Prelude.{String, Bool, Option, none, some, List, [], ◌∷◌, ◌=s◌}
use featureflag_api.Prelude.{if◌then◌else◌}
use featureflag_api.Prelude.Int.{ℤ, pos, is_negative, int_lt}
use featureflag_api.Errors.{GoError, plain, audit, chain_any, experiments}
use featureflag_api.Errors.Domain.{negative_offset, experiment_not_found}
use featureflag_api.Exec.{Result, ok, err, Exec, pure, raise, lift, ◌>>=◌}
use featureflag_api.Auth.{Context, require_role}
use featureflag_api.Audit.{ListFilter}
use featureflag_api.Audit.Postgres.{default_list_limit, max_list_limit}
use featureflag_api.Audit.Service as AuditService
use featureflag_api.Schema.{Entry}
use featureflag_api.Database.{World}
use featureflag_api.Model
use featureflag_api.Model.{
  EvaluationContextInput, ExperimentVariant, AuditLog, AuditLogsFilterInput,
}
use featureflag_api.Flags.Service.{default_environment}
use featureflag_api.Flags.Delete.{evaluate_flag_in_environment}
use featureflag_api.Users.Service
use featureflag_api.Transport.{Libraries, Resolver, ExperimentsService}
use featureflag_api.Transport.Mutations.{admins}

abbrev pub readers : List String
readers = "admin" ∷ "developer" ∷ "viewer" ∷ []

-- `if environment != nil && *environment != "" { … }`, else the stage dev
abbrev pub stage_or_dev : Option String → String
stage_or_dev none = default_environment
stage_or_dev (some e) = if e =s "" then default_environment else e

-- `toAuditLogModel` of an entry that is there; `createdAt` is kept as the time.
unfoldable pub to_audit_log_model : Entry → AuditLog
to_audit_log_model e = record {
  id = e.id;
  entity = e.entity;
  entity_id = e.entity_id;
  action = e.action;
  actor_id = e.actor_id;
  created_at = e.created_at;
}

-- The loop of `AuditLogs`.
unfoldable pub to_audit_log_models : List Entry → List AuditLog
unfolding to_audit_log_model
to_audit_log_models [] = []
to_audit_log_models (e ∷ es) = to_audit_log_model e ∷ to_audit_log_models es

-- The limit that is asked for, 50 if there is none, and 200 at most.
abbrev pub resolved_limit : Option ℤ → ℤ
resolved_limit limit =
    let l = Option.get_or limit default_list_limit in
    if int_lt max_list_limit l then max_list_limit else l

abbrev pub resolved_offset : Option ℤ → ℤ
resolved_offset offset = Option.get_or offset (pos 0)

abbrev pub list_filter : Option AuditLogsFilterInput → ListFilter
list_filter none = record { entity = none; action = none; actor_id = none }
list_filter (some f) = record { entity = f.entity; action = f.action; actor_id = f.actor_id }

is_experiment_not_found : GoError → Bool
is_experiment_not_found (experiments (experiment_not_found key environment)) = Bool.true
is_experiment_not_found _ = Bool.false

-- `var nf *experiments.ExperimentNotFoundError; errors.As(err, &nf)`
unfoldable pub as_experiment_not_found : GoError → Bool
unfolding chain_any is_experiment_not_found
as_experiment_not_found = chain_any is_experiment_not_found

-- A missing experiment is a null and no error.
unfoldable pub null_if_not_found : Result Model.Experiment → Result (Option Model.Experiment)
unfolding as_experiment_not_found
null_if_not_found (ok x) = ok (some x)
null_if_not_found (err e) = if as_experiment_not_found e then ok none else err e

unfoldable pub experiment_with :
    Option ExperimentsService → String → String → Exec World (Option Model.Experiment)
unfolding null_if_not_found
experiment_with none key environment w = (err (plain "experiments service not configured"), w)
experiment_with (some s) key environment w = (
  null_if_not_found (s.get_experiment key environment w).0,
  (s.get_experiment key environment w).1,
)

unfoldable pub assignment_with :
    Option ExperimentsService → String → String → String → Exec World ExperimentVariant
assignment_with none user_id key environment = raise (plain "experiments service not configured")
assignment_with (some s) user_id key environment = s.get_assignment user_id key environment

unfoldable pub configured : Option AuditService.Service → Exec World AuditService.Service
configured none = raise (plain "audit service not configured")
configured (some s) = pure s

unfoldable pub listed_logs : AuditService.Service → ListFilter → ℤ → ℤ → Exec World (List AuditLog)
unfolding to_audit_log_models
listed_logs s f limit offset =
    if is_negative offset
    then raise (audit negative_offset)
    else (do entries ← AuditService.list s f limit offset; pure (to_audit_log_models entries))

module _ (lib : Libraries) (r : Resolver) where
  unfoldable pub evaluate_flag :
      Context → String → EvaluationContextInput → Option String → Exec World Bool
  evaluate_flag ctx key c environment = do
    user ← lift (require_role ctx readers)
    evaluate_flag_in_environment lib.unmarshal r.flags key (stage_or_dev environment) c

  unfoldable pub user : Context → String → Exec World (Option Model.User)
  user ctx id = do u ← lift (require_role ctx readers); Service.get_user r.users id

  unfoldable pub user_by_email : Context → String → Exec World (Option Model.User)
  user_by_email ctx email = do
    u ← lift (require_role ctx readers)
    Service.get_user_by_email r.users email

  unfoldable pub experiment : Context → String → String → Exec World (Option Model.Experiment)
  unfolding experiment_with
  experiment ctx key environment = do
    u ← lift (require_role ctx readers)
    experiment_with r.experiments key environment

  unfoldable pub get_assignment : Context → String → String → String → Exec World ExperimentVariant
  unfolding assignment_with
  get_assignment ctx user_id key environment = do
    u ← lift (require_role ctx readers)
    assignment_with r.experiments user_id key environment

  -- `requireAuditReadAccess`, with the service that the resolvers then use
  unfoldable pub require_audit_read_access : Context → Exec World AuditService.Service
  unfolding configured
  require_audit_read_access ctx = do u ← lift (require_role ctx admins); configured r.audit

  unfoldable pub audit_log : Context → String → Exec World (Option AuditLog)
  unfolding require_audit_read_access to_audit_log_model
  audit_log ctx id = do
    s ← require_audit_read_access ctx
    entry ← AuditService.get_by_id s id
    pure (Option.map to_audit_log_model entry)

  unfoldable pub audit_logs :
      Context → Option AuditLogsFilterInput → Option ℤ → Option ℤ → Exec World (List AuditLog)
  unfolding require_audit_read_access listed_logs
  audit_logs ctx filter limit offset = do
    s ← require_audit_read_access ctx
    listed_logs s (list_filter filter) (resolved_limit limit) (resolved_offset offset)
