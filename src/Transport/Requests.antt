-- ===== src/Transport/Requests.antt =====
-- A call of a resolver of transport/graphql as a value: one constructor for each field of Mutation
-- and Query in graph/schema.graphqls that has a resolver.
use featureflag_api.Prelude.{String, Bool, Option, none, some, List}
use featureflag_api.Prelude.Int.{ℤ}
use featureflag_api.Exec.{Result, ok, err, Exec}
use featureflag_api.Auth.{Context}
use featureflag_api.Database.{World}
use featureflag_api.Model
use featureflag_api.Model.{
  CreateFlagInput, UpdateFlagInput, CreateUserInput, UpdateUserInput, CreateExperimentInput,
  EvaluationContextInput, AuditLogsFilterInput, LoginInput, LoginPayload, FeatureFlag,
  ExperimentVariant, AuditLog,
}
use featureflag_api.Transport.{Libraries, Resolver}
use featureflag_api.Transport.Mutations
use featureflag_api.Transport.Mutations.{writers, admins}
use featureflag_api.Transport.Queries
use featureflag_api.Transport.Queries.{readers}

pub data Request : Type 0 where
  create_flag : CreateFlagInput → Request
  update_flag : UpdateFlagInput → Request
  delete_flag : (key environment : String) → Request
  create_user : CreateUserInput → Request
  update_user : UpdateUserInput → Request
  delete_user : (id : String) → Request
  create_experiment : CreateExperimentInput → Request
  login : LoginInput → Request
  evaluate_flag : (key : String) → EvaluationContextInput → (environment : Option String) → Request
  user : (id : String) → Request
  user_by_email : (email : String) → Request
  experiment : (key environment : String) → Request
  get_assignment : (user_id key environment : String) → Request
  audit_log : (id : String) → Request
  audit_logs : Option AuditLogsFilterInput → (limit offset : Option ℤ) → Request

pub data Reply : Type 0 where
  flag : FeatureFlag → Reply
  answer : Bool → Reply
  some_user : Model.User → Reply
  maybe_user : Option Model.User → Reply
  some_experiment : Model.Experiment → Reply
  maybe_experiment : Option Model.Experiment → Reply
  variant : ExperimentVariant → Reply
  payload : LoginPayload → Reply
  log : Option AuditLog → Reply
  logs : List AuditLog → Reply

abbrev pub map_ok : {A B : Type 0} → (A → B) → Result A → Result B
map_ok f (ok a) = ok (f a)
map_ok f (err e) = err e

abbrev pub replying : {A : Type 0} → (A → Reply) → Exec World A → Exec World Reply
replying f m w = (map_ok f (m w).0, (m w).1)

unfoldable pub resolve : Libraries → Resolver → Context → Request → Exec World Reply
resolve lib r ctx (create_flag input) = replying flag (Mutations.create_flag lib r ctx input)
resolve lib r ctx (update_flag input) = replying flag (Mutations.update_flag lib r ctx input)
resolve lib r ctx (delete_flag key env) = replying answer (Mutations.delete_flag lib r ctx key env)
resolve lib r ctx (create_user input) = replying some_user (Mutations.create_user lib r ctx input)
resolve lib r ctx (update_user input) = replying some_user (Mutations.update_user lib r ctx input)
resolve lib r ctx (delete_user id) = replying answer (Mutations.delete_user lib r ctx id)
resolve lib r ctx (create_experiment input) =
    replying some_experiment (Mutations.create_experiment lib r ctx input)
resolve lib r ctx (login input) = replying payload (Mutations.login lib r ctx input)
resolve lib r ctx (evaluate_flag key c env) =
    replying answer (Queries.evaluate_flag lib r ctx key c env)
resolve lib r ctx (user id) = replying maybe_user (Queries.user lib r ctx id)
resolve lib r ctx (user_by_email email) =
    replying maybe_user (Queries.user_by_email lib r ctx email)
resolve lib r ctx (experiment key env) =
    replying maybe_experiment (Queries.experiment lib r ctx key env)
resolve lib r ctx (get_assignment u key env) =
    replying variant (Queries.get_assignment lib r ctx u key env)
resolve lib r ctx (audit_log id) = replying log (Queries.audit_log lib r ctx id)
resolve lib r ctx (audit_logs filter limit offset) =
    replying logs (Queries.audit_logs lib r ctx filter limit offset)

-- Who may call: a login needs no role, users and the audit log are administered by admins, flags and
-- experiments are changed by admins and developers, and every role reads the rest.
abbrev pub roles_of : Request → Option (List String)
roles_of (create_flag input) = some writers
roles_of (update_flag input) = some writers
roles_of (delete_flag key env) = some writers
roles_of (create_user input) = some admins
roles_of (update_user input) = some admins
roles_of (delete_user id) = some admins
roles_of (create_experiment input) = some writers
roles_of (login input) = none
roles_of (evaluate_flag key c env) = some readers
roles_of (user id) = some readers
roles_of (user_by_email email) = some readers
roles_of (experiment key env) = some readers
roles_of (get_assignment u key env) = some readers
roles_of (audit_log id) = some admins
roles_of (audit_logs filter limit offset) = some admins
