-- ===== src/Experiments/Postgres.antt =====
-- internal/experiments/postgres.go, with the constraints of the experiments tables (schema.go). A
-- failure while the rows of a query are read is not told apart from a failure of the query.
use featureflag_api.Prelude.{String, Bool, Option, not, List, [], ◌∷◌, ◌++◌, ◌=s◌}
use featureflag_api.Prelude.{◌||◌, ◌&&◌, ◌^◌, if◌then◌else◌, exists_by, find_by, filter_by}
use featureflag_api.Prelude.{update_by, sort_by}
use featureflag_api.Prelude.Int.{ℤ, pos, is_negative, int_lt}
use featureflag_api.Errors.{GoError, plain, experiments, experiments_operation, is_unique_violation}
use featureflag_api.Errors.Domain.{duplicate_experiment}
use featureflag_api.Exec.{ok, Exec, raise, on_error}
use featureflag_api.Schema.{User, Experiment, Variant, Assignment}
use featureflag_api.Database.{World, Conn, on_db, on_tx, Statement, constraint, run, begin_tx}
use featureflag_api.Experiments.{Store, context}

abbrev pub at_key : String → String → Experiment → Bool
at_key key environment e = e.key =s key && e.environment =s environment

abbrev pub has_id : String → Experiment → Bool
has_id id e = e.id =s id

-- `BeginTx`
unfoldable pub store_begin_tx : Conn → Exec World Unit
store_begin_tx on_tx = raise (plain "experiments store: BeginTx not supported on tx-scoped store")
store_begin_tx on_db =
    on_error (experiments_operation (context "experiments.repo.begin_tx" "" "" "" "" "")) begin_tx

-- INSERT INTO experiments (key, environment) … RETURNING id
unfoldable pub insert_experiment : Experiment → Statement Experiment
unfolding constraint
insert_experiment e a t =
    constraint
      (exists_by (at_key e.key e.environment) t.experiments
        || exists_by (has_id a.uuid) t.experiments)
      "23505" t
      (let row = record e { id = a.uuid } in
        (ok row, record t { experiments = t.experiments ++ row ∷ [] }))

create_error : Experiment → GoError → GoError
create_error x e =
    if is_unique_violation e
    then experiments (duplicate_experiment x.key x.environment)
    else experiments_operation
        (context "experiments.repo.create_experiment" x.key x.environment "" "" "") e

unfoldable pub create_experiment : Conn → Experiment → Exec World Experiment
unfolding insert_experiment create_error
create_experiment conn x = on_error (create_error x) (run conn (insert_experiment x))

-- SELECT … FROM experiments WHERE …
unfoldable pub select_experiment : (Experiment → Bool) → Statement (Option Experiment)
select_experiment test a t = (ok (find_by test t.experiments), t)

unfoldable pub get_experiment_by_key_and_environment :
    Conn → String → String → Exec World (Option Experiment)
unfolding select_experiment
get_experiment_by_key_and_environment conn key environment =
    on_error
      (experiments_operation
        (context "experiments.repo.get_experiment_by_key_and_environment" key environment "" "" ""))
      (run conn (select_experiment (at_key key environment)))

unfoldable pub get_experiment_by_id : Conn → String → Exec World (Option Experiment)
unfolding select_experiment
get_experiment_by_id conn id =
    on_error
      (experiments_operation (context "experiments.repo.get_experiment_by_id" "" "" id "" ""))
      (run conn (select_experiment (has_id id)))

-- A value of the column type INTEGER that passes CHECK (weight >= 0).
abbrev pub weight_fits : ℤ → Bool
weight_fits weight = not (is_negative weight) && int_lt weight (pos (2 ^ 31))

-- INSERT INTO experiment_variants (experiment_id, name, weight) … RETURNING id: the foreign key,
-- the column's range and the primary key
unfoldable pub insert_variant : Variant → Statement Variant
unfolding constraint
insert_variant v a t =
    constraint (not (exists_by (has_id v.experiment_id) t.experiments)) "23503" t (
      constraint (not (weight_fits v.weight)) "23514" t (
        constraint (exists_by (λ (o : Variant). o.id =s a.uuid) t.experiment_variants) "23505" t (
          let row = record v { id = a.uuid } in
          (ok row, record t { experiment_variants = t.experiment_variants ++ row ∷ [] }))))

unfoldable pub create_variant : Conn → Variant → Exec World Variant
unfolding insert_variant
create_variant conn v =
    on_error
      (experiments_operation
        (record (context "experiments.repo.create_variant" "" "" v.experiment_id "" "") {
          variant_name = v.name;
          variant_weight = v.weight;
        }))
      (run conn (insert_variant v))

-- SELECT … FROM experiment_variants WHERE experiment_id = $1 ORDER BY id
unfoldable pub select_variants : String → Statement (List Variant)
select_variants id a t = (
  ok (
      sort_by (λ (v : Variant). v.id)
        (filter_by (λ (v : Variant). v.experiment_id =s id) t.experiment_variants)),
  t,
)

unfoldable pub get_variants_by_experiment_id : Conn → String → Exec World (List Variant)
unfolding select_variants
get_variants_by_experiment_id conn id =
    on_error
      (experiments_operation
        (context "experiments.repo.get_variants_by_experiment_id.query" "" "" id "" ""))
      (run conn (select_variants id))

abbrev pub assigned_to : String → String → Assignment → Bool
assigned_to user_id experiment_id a = a.user_id =s user_id && a.experiment_id =s experiment_id

-- SELECT … FROM experiment_assignments WHERE user_id = $1 AND experiment_id = $2
unfoldable pub select_assignment : String → String → Statement (Option Assignment)
select_assignment user_id experiment_id a t =
    (ok (find_by (assigned_to user_id experiment_id) t.experiment_assignments), t)

unfoldable pub get_assignment : Conn → String → String → Exec World (Option Assignment)
unfolding select_assignment
get_assignment conn user_id experiment_id =
    on_error
      (experiments_operation
        (context "experiments.repo.get_assignment" "" "" experiment_id user_id ""))
      (run conn (select_assignment user_id experiment_id))

abbrev pub variant_of : Assignment → Variant → Bool
variant_of a v = v.id =s a.variant_id && v.experiment_id =s a.experiment_id

abbrev pub upserted : Assignment → List Assignment → List Assignment
upserted a rows =
    if exists_by (assigned_to a.user_id a.experiment_id) rows
    then update_by (assigned_to a.user_id a.experiment_id)
        (λ r. record r { variant_id = a.variant_id }) rows
    else rows ++ a ∷ []

-- INSERT INTO experiment_assignments … ON CONFLICT … DO UPDATE SET variant_id = $3: the foreign
-- keys to users, experiments and (variant, experiment)
unfoldable pub upsert_row : Assignment → Statement Unit
unfolding constraint
upsert_row a answer t =
    constraint
      (not (
        exists_by (λ (u : User). u.id =s a.user_id) t.users
        && exists_by (has_id a.experiment_id) t.experiments
        && exists_by (variant_of a) t.experiment_variants))
      "23503" t (ok tt, record t { experiment_assignments = upserted a t.experiment_assignments })

unfoldable pub upsert_assignment : Conn → Assignment → Exec World Unit
unfolding upsert_row
upsert_assignment conn a =
    on_error
      (experiments_operation
        (context "experiments.repo.upsert_assignment" "" "" a.experiment_id a.user_id a.variant_id))
      (run conn (upsert_row a))

unfoldable pub postgres_store : Conn → Store
unfolding create_experiment get_experiment_by_key_and_environment get_experiment_by_id
    create_variant get_variants_by_experiment_id get_assignment upsert_assignment
postgres_store conn = record {
  create_experiment = create_experiment conn;
  get_experiment_by_key_and_environment = get_experiment_by_key_and_environment conn;
  get_experiment_by_id = get_experiment_by_id conn;
  create_variant = create_variant conn;
  get_variants_by_experiment_id = get_variants_by_experiment_id conn;
  get_assignment = get_assignment conn;
  upsert_assignment = upsert_assignment conn;
}
