-- ===== src/Flags/Postgres.antt =====
-- internal/flags/postgres.go, with the constraints of feature_flags and flag_rules (schema.go). A
-- failure while the rows of a query are read is not told apart from a failure of the query.
use featureflag_api.Prelude.{ℕ, zero, suc, String, Bool, Option, not}
use featureflag_api.Prelude.{List, [], ◌∷◌, ◌++◌, ◌=s◌, ◌||◌, ◌&&◌, if◌then◌else◌, exists_by}
use featureflag_api.Prelude.{find_by, filter_by, remove_by, update_by, count_by, sort_by}
use featureflag_api.Errors.{GoError, flags, is_unique_violation}
use featureflag_api.Errors.Domain.{duplicate_key, not_found}
use featureflag_api.Exec.{ok, Exec, pure, raise, on_error, ◌>>=◌, ◌>>◌}
use featureflag_api.Schema.{RuleType, Flag, Rule}
use featureflag_api.Database.{
  World, Conn, on_db, on_tx, Statement, constraint, run, begin_tx, commit, with_rollback,
}
use featureflag_api.Flags.{Store, operation}
use featureflag_api.Flags.Rules.{rule_type_eq}

abbrev pub at_key : String → String → Flag → Bool
at_key key environment f = f.key =s key && f.environment =s environment

abbrev pub has_id : String → Flag → Bool
has_id id f = f.id =s id

abbrev pub of_flag : String → Rule → Bool
of_flag flag_id r = r.flag_id =s flag_id

-- INSERT INTO feature_flags … RETURNING id, created_at; the row as it is stored
unfoldable pub insert_flag : Flag → Statement Flag
unfolding constraint
insert_flag f a t =
    constraint
      (exists_by (at_key f.key f.environment) t.feature_flags
        || exists_by (has_id a.uuid) t.feature_flags)
      "23505" t
      (let row = record f { id = a.uuid; created_at = a.now } in
        (ok row, record t { feature_flags = t.feature_flags ++ row ∷ [] }))

create_error : Flag → GoError → GoError
create_error f e =
    if is_unique_violation e
    then flags (duplicate_key f.key f.environment)
    else operation "flags.repo.create" f.key f.environment "" e

unfoldable pub create : Conn → Flag → Exec World Flag
unfolding insert_flag create_error operation
create conn f = on_error (create_error f) (run conn (insert_flag f))

-- SELECT … FROM feature_flags WHERE key = $1 AND environment = $2
unfoldable pub select_flag : String → String → Statement (Option Flag)
select_flag key environment a t = (ok (find_by (at_key key environment) t.feature_flags), t)

unfoldable pub get_by_key_and_environment : Conn → String → String → Exec World (Option Flag)
unfolding select_flag operation
get_by_key_and_environment conn key environment =
    on_error (operation "flags.repo.get_by_key_and_environment" key environment "")
      (run conn (select_flag key environment))

-- A row of another flag that has the key.
abbrev pub taken_by_other : Flag → Flag → Bool
taken_by_other f g = not (has_id f.id g) && at_key f.key f.environment g

-- The SET clause leaves `created_at`.
abbrev pub set_columns : Flag → Flag → Flag
set_columns f row = record f { id = row.id; created_at = row.created_at }

-- UPDATE feature_flags SET … WHERE id = $6; the number of rows affected
unfoldable pub update_flag : Flag → Statement ℕ
unfolding constraint
update_flag f a t =
    constraint
      (exists_by (has_id f.id) t.feature_flags && exists_by (taken_by_other f) t.feature_flags)
      "23505" t
      ((
        ok (count_by (has_id f.id) t.feature_flags),
        record t { feature_flags = update_by (has_id f.id) (set_columns f) t.feature_flags },
      ))

-- `if n == 0 { return &NotFoundError{ID: id} }`
unfoldable pub require_rows : String → ℕ → Exec World Unit
require_rows id zero = raise (flags (not_found "" "" id))
require_rows id (suc n) = pure tt

unfoldable pub update : Conn → Flag → Exec World Unit
unfolding update_flag operation require_rows
update conn f = do
  n ← on_error (operation "flags.repo.update" f.key f.environment f.id) (run conn (update_flag f))
  require_rows f.id n

-- SELECT … FROM flag_rules WHERE flag_id = $1 ORDER BY id
unfoldable pub select_rules : String → Statement (List Rule)
select_rules flag_id a t =
    (ok (sort_by (λ (r : Rule). r.id) (filter_by (of_flag flag_id) t.flag_rules)), t)

unfoldable pub get_rules_by_flag_id : Conn → String → Exec World (List Rule)
unfolding select_rules operation
get_rules_by_flag_id conn flag_id =
    on_error (operation "flags.repo.get_rules_by_flag_id.query" "" "" flag_id)
      (run conn (select_rules flag_id))

-- DELETE FROM feature_flags WHERE id = $1, with ON DELETE CASCADE; the number of rows affected
unfoldable pub delete_flag : String → Statement ℕ
delete_flag id a t = (
  ok (count_by (has_id id) t.feature_flags),
  record t {
    feature_flags = remove_by (has_id id) t.feature_flags;
    flag_rules =
        if exists_by (has_id id) t.feature_flags
        then remove_by (of_flag id) t.flag_rules
        else t.flag_rules;
  },
)

unfoldable pub delete : Conn → String → Exec World Unit
unfolding delete_flag operation require_rows
delete conn id = do
  n ← on_error (operation "flags.repo.delete" "" "" id) (run conn (delete_flag id))
  require_rows id n

-- DELETE FROM flag_rules WHERE flag_id = $1
unfoldable pub delete_rules : String → Statement Unit
delete_rules flag_id a t =
    (ok tt, record t { flag_rules = remove_by (of_flag flag_id) t.flag_rules })

-- INSERT INTO flag_rules (flag_id, type, value) …: the foreign key, the CHECK and the primary key
unfoldable pub insert_rule : String → Rule → Statement Unit
unfolding constraint
insert_rule flag_id r a t =
    constraint (not (exists_by (has_id flag_id) t.feature_flags)) "23503" t (
      constraint (rule_type_eq r.rule_type RuleType.unset) "23514" t (
        constraint (exists_by (λ (s : Rule). s.id =s a.uuid) t.flag_rules) "23505" t (
          (
            ok tt,
            record t {
              flag_rules = t.flag_rules ++ record r { id = a.uuid; flag_id = flag_id } ∷ [];
            },
          ))))

unfoldable pub insert_rules : String → List Rule → Exec World Unit
unfolding insert_rule operation
insert_rules flag_id [] = pure tt
insert_rules flag_id (r ∷ rules) = do
  on_error (operation "flags.repo.replace_rules_by_flag_id.insert" "" "" flag_id)
      (run on_tx (insert_rule flag_id r))
  insert_rules flag_id rules

-- The two branches of `ReplaceRulesByFlagID`, by `p.begin == nil`.
unfoldable pub replace_rules_by_flag_id : Conn → String → List Rule → Exec World Unit
unfolding delete_rules insert_rules operation
replace_rules_by_flag_id on_tx flag_id rules = do
  on_error (operation "flags.repo.replace_rules_by_flag_id.delete" "" "" flag_id)
      (run on_tx (delete_rules flag_id))
  insert_rules flag_id rules
replace_rules_by_flag_id on_db flag_id rules = do
  on_error (operation "flags.repo.replace_rules_by_flag_id.begin_tx" "" "" flag_id) begin_tx
  with_rollback (do
    on_error (operation "flags.repo.replace_rules_by_flag_id.delete" "" "" flag_id)
        (run on_tx (delete_rules flag_id))
    insert_rules flag_id rules
    on_error (operation "flags.repo.replace_rules_by_flag_id.commit" "" "" flag_id) commit)

unfoldable pub postgres_store : Conn → Store
unfolding create get_by_key_and_environment update delete get_rules_by_flag_id
    replace_rules_by_flag_id
postgres_store conn = record {
  create = create conn;
  get_by_key_and_environment = get_by_key_and_environment conn;
  update = update conn;
  delete = delete conn;
  get_rules_by_flag_id = get_rules_by_flag_id conn;
  replace_rules_by_flag_id = replace_rules_by_flag_id conn;
}
