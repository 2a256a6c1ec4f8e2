-- ===== src/Lib.antt =====
-- The feature-flag API: a GraphQL server over PostgreSQL that keeps feature flags with their rollout
-- rules, experiments with weighted variants, users with roles, and an audit log of the changes.
--
-- The parts and the files
-- - Flags: internal/flags. `Flags.Rules` is the part of service.go about strategies and rules
--   (resolveStrategyForCreate, validateRulesSameType, ruleInputsToRules, …), `Flags.Evaluate` the
--   evaluation (service.go and attribute.go), `Flags.Postgres` postgres.go, `Flags.Service` and
--   `Flags.Delete` the operations CreateFlag, UpdateFlag, DeleteFlag and EvaluateFlag.
--   `Flags.Effects` and `Flags.Changes` say what the statements and the operations do to the tables,
--   `Flags.FailClosed` is about audited operations, `Flags.Rollout` and `Flags.Decision` about what
--   the rules decide, `Flags.Consistency` about the checks on the rules of an input,
--   `Flags.Scope` and `Flags.Integrity` about the tables after them, `Flags.Success` and
--   `Flags.Taken` about a working server.
-- - Users: internal/users. `Users.Postgres` is postgres.go; `Users.Service` (the steps of the
--   mutations, the lookups, Login) and `Users.Mutations` (the mutations with their transaction) are
--   service.go; `Users.Effects`, `Users.FailClosed`, `Users.Deletion`, `Users.Success`,
--   `Users.Taken` and `Users.SignIn` have the theorems.
-- - Experiments: internal/experiments. `Experiments.Weights` is validateVariantWeights,
--   `Experiments.Assign` assignVariantByWeight, `Experiments.Postgres` postgres.go,
--   `Experiments.Service` and `Experiments.GetAssignment` the operations of service.go,
--   `Experiments.Distribution` the theorems on weights and buckets, `Experiments.Sticky` that on an
--   assignment that is there, `Experiments.Effects`, `Experiments.FailClosed` and
--   `Experiments.Integrity` those on the creation.
-- - Audit: internal/audit. `Audit.Write` is tx_write.go with the block that the services run in the
--   transaction, `Audit.Postgres` postgres.go, `Audit.Recorded` the reasoning on audited blocks,
--   `Audit.Listing` that on `List`.
-- - Auth: internal/auth. `Auth` is auth.go, the claims and the actor of a request and the role check,
--   `Auth.RoleCheck` has its theorems; `Auth.Token` is jwt.go, `Auth.Token.Lifetime` is about how long
--   a token is accepted. `Audit.Service` is internal/audit/service.go.
-- - Transport: transport/graphql. `Transport` is resolver.go, `Transport.Mutations` and
--   `Transport.Queries` are the *.resolvers.go files and audit_helpers.go, `Transport.Requests` has a
--   call of a resolver as a value, `Transport.Access` is about the role check in front of the
--   resolvers, `Transport.ErrorShaping` is error_shaping.go.
-- - Http: what transport/graphql/middleware uses of net/http; `Http.Middleware` is that folder with
--   the chain that internal/app/app.go builds, `Http.Guards` has the theorems, `Http.Authorization`
--   what the auth middleware does with the header.
-- - App: the resolver that NewApp of internal/app/app.go builds. `App.Reads` and `App.History` are
--   about sequences of requests that it serves, `App.Invariants` is the rule for invariants of the
--   tables, `App.Integrity` about the flags' rules and the weights of the experiments,
--   `App.SignIn` about a login and the requests after it. Config: internal/config/config.go.
-- - Schema: the tables of internal/db/schema.go, a row for each entity.go. Model: the inputs,
--   outputs and enums of graph/model/models_gen.go, `Model.Texts` its enum texts. Errors: the error
--   types and `errors.As`; `Errors.Text` is the `Error` methods of internal/*/errors.go,
--   `Errors.Verbs` the verbs of fmt in them.
-- - Database: what database/sql gives to the stores. A `World` has the committed tables, the tables
--   of the one open transaction, what became of its last `Commit` (only theorems look at it), and what
--   the server answers to the statements to come. `run` is a statement on the `*sql.DB` or on the
--   `*sql.Tx`; `with_rollback` is the deferred rollback of the services. `Database.Atomic` has the
--   rules for transactions, `Database.Reading` those for queries, `Database.Keeping` those on what a
--   statement outside a transaction keeps.
-- - Exec: an operation as a function from a state to its result or error and the state after it;
--   `Exec.Triple` has preconditions and postconditions. Hash: FNV-1a and the bucket of a user.
-- - Attribution: the audited operations for a request without an actor.
-- - Examples: the theorems at concrete tables and inputs.
--
-- How the code is read
-- An operation of a service is a function of the same name in snake_case; its `context.Context`
-- carries the claims and the actor only. A service reaches its store through the record of the
-- store interface; the optional interfaces of a store (TxAwareStore, TxStarter) are `Option` fields,
-- and `new_service` and `new_service_with_audit` put the PostgreSQL stores in. A `*T` that may be nil
-- is an `Option`. Go's `int` is an integer of 64 bits, whose sums wrap around. Times are numbers, and a
-- time that goes out as a text stays one.
-- The server's answers are arbitrary: a statement works, fails with nothing done, or is done while
-- the caller gets an error. So a text that is not a UUID where a column wants one, a broken
-- connection and a foreign key that fails are all among the errors that the theorems allow. Ids and
-- times come from the answers (gen_random_uuid() and now()). Requests run one at a time.
-- json.Unmarshal, bcrypt and golang-jwt are libraries: the evaluation takes the decoder of a condition
-- as a parameter, the users service the record `Bcrypt`, the tokens the record `JwtLibrary`, whose
-- documented laws are `IsJwt`. The presenter of gqlgen, the Unicode tables above ASCII and the text of
-- a PgError are parameters, too. An HTTP handler takes a request and the state of the server (the
-- response so far, the status recorders around the writer, the log, the clock) and returns or panics;
-- the handler of gqlgen is a parameter of the chain.
-- The loops run over lists; the digits of `%d` take the number itself as fuel, which has more than
-- enough, since each step divides by ten.
--
-- Not modelled
-- graph/generated.go (generated by gqlgen) and the dispatch of a GraphQL query to the resolvers,
-- transport/graphql/server.go and cmd (the server of net/http, signals, I/O), internal/auth/password.go
-- (calls of bcrypt), the opening of the database (internal/db/db.go), the mocks and test helpers, and
-- scripts/coverage. Interleaved requests and isolation levels are outside the model, too.
mod Prelude
pub mod Errors
pub mod Exec
pub mod Schema
pub mod Model
pub mod Hash
pub mod Flags
pub mod Users
pub mod Experiments
pub mod Database
pub mod Auth
pub mod Audit
pub mod Attribution
pub mod Transport
pub mod Http
pub mod Config
pub mod App
pub mod Examples
