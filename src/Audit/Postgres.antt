-- ===== src/Audit/Postgres.antt =====
-- internal/audit/postgres.go. A failure while the rows of `List` are read is not told apart from a
-- failure of the query.
use featureflag_api.Prelude.{ℕ, zero, suc, String, Bool, true, ◌&&◌, Option, none, some}
use featureflag_api.Prelude.{List, [], ◌∷◌, ◌++◌, ◌=s◌, leb, if◌then◌else◌, exists_by, find_by}
use featureflag_api.Prelude.{filter_by}
use featureflag_api.Prelude.Int.{ℤ, pos, negsuc, is_negative, int_lt}
use featureflag_api.Errors.{GoError, wrapped, audit, audit_operation}
use featureflag_api.Errors.Domain.{AuditOperation, nil_entry, begin_tx_unsupported, negative_offset}
use featureflag_api.Exec.{ok, Exec, raise, on_error}
use featureflag_api.Schema.{Entry}
use featureflag_api.Database.{World, Conn, on_db, on_tx, Statement, constraint, run, begin_tx}
use featureflag_api.Audit.{ListFilter, Store, Handle}

-- INSERT INTO audit_logs (entity, entity_id, action, actor_id) …
unfoldable pub insert_entry : Entry → Statement Unit
unfolding constraint
insert_entry e a t = constraint (exists_by (λ r. r.id =s a.uuid) t.audit_logs) "23505" t (
    (
      ok tt,
      record t { audit_logs = t.audit_logs ++ record e { id = a.uuid; created_at = a.now } ∷ [] },
    ))

create_error : Entry → GoError → GoError
create_error e = audit_operation (record {
  op = "audit.repo.create";
  id = "";
  entity = e.entity;
  entity_id = e.entity_id;
  action = e.action;
  actor_id = e.actor_id;
  limit = pos 0;
  offset = pos 0;
})

unfoldable pub create : Conn → Option Entry → Exec World Unit
unfolding insert_entry create_error
create conn none = raise (audit nil_entry)
create conn (some e) = on_error (create_error e) (run conn (insert_entry e))

-- SELECT … FROM audit_logs WHERE id = $1
unfoldable pub select_entry : String → Statement (Option Entry)
select_entry id a t = (ok (find_by (λ r. r.id =s id) t.audit_logs), t)

read_operation : String → String → ℤ → ℤ → AuditOperation
read_operation op id limit offset = record {
  op = op;
  id = id;
  entity = "";
  entity_id = "";
  action = "";
  actor_id = "";
  limit = limit;
  offset = offset;
}

unfoldable pub get_by_id : Conn → String → Exec World (Option Entry)
unfolding select_entry read_operation
get_by_id conn id =
    on_error (audit_operation (read_operation "audit.repo.get_by_id" id (pos 0) (pos 0)))
      (run conn (select_entry id))

-- One condition of the WHERE clause; an absent filter adds none.
unfoldable pub accepts : Option String → String → Bool
accepts none v = true
accepts (some want) v = v =s want

unfoldable pub matches : ListFilter → Entry → Bool
unfolding accepts
matches f e =
    accepts f.entity e.entity && accepts f.action e.action && accepts f.actor_id e.actor_id

-- ORDER BY created_at DESC
unfoldable pub insert_newest : Entry → List Entry → List Entry
insert_newest e [] = e ∷ []
insert_newest e (d ∷ ds) =
    if leb d.created_at e.created_at then e ∷ d ∷ ds else d ∷ insert_newest e ds

unfoldable pub newest_first : List Entry → List Entry
unfolding insert_newest
newest_first [] = []
newest_first (e ∷ es) = insert_newest e (newest_first es)

-- LIMIT n, after OFFSET m
unfoldable pub limited : ℕ → List Entry → List Entry
limited zero es = []
limited (suc n) [] = []
limited (suc n) (e ∷ es) = e ∷ limited n es

unfoldable pub skipped : ℕ → List Entry → List Entry
skipped zero es = es
skipped (suc n) [] = []
skipped (suc n) (e ∷ es) = skipped n es

abbrev pub count_of : ℤ → ℕ
count_of (pos n) = n
count_of (negsuc n) = 0

unfoldable pub select_entries : ListFilter → ℤ → ℤ → Statement (List Entry)
unfolding newest_first limited skipped matches
select_entries f limit offset a t = (
  ok (
      limited (count_of limit)
        (skipped (count_of offset) (newest_first (filter_by (matches f) t.audit_logs)))),
  t,
)

abbrev pub default_list_limit : ℤ
default_list_limit = pos 50

abbrev pub max_list_limit : ℤ
max_list_limit = pos 200

-- The two guards on `limit`.
unfoldable pub resolve_limit : ℤ → ℤ
resolve_limit limit =
    let l = if int_lt limit (pos 1) then default_list_limit else limit in
    if int_lt max_list_limit l then max_list_limit else l

unfoldable pub list_checked : Conn → ListFilter → ℤ → ℤ → Exec World (List Entry)
unfolding select_entries read_operation
list_checked conn f limit offset =
    if is_negative offset
    then raise (wrapped "audit store" (audit negative_offset))
    else on_error (audit_operation (read_operation "audit.repo.list.query" "" limit offset))
        (run conn (select_entries f limit offset))

unfoldable pub list : Conn → ListFilter → ℤ → ℤ → Exec World (List Entry)
unfolding resolve_limit list_checked
list conn f limit offset = list_checked conn f (resolve_limit limit) offset

unfoldable pub postgres_store : Conn → Store
unfolding create get_by_id list
postgres_store conn = record { create = create conn; get_by_id = get_by_id conn; list = list conn }

-- `BeginTx`: a store of a transaction cannot begin one.
unfoldable pub store_begin_tx : Conn → Exec World Unit
store_begin_tx on_db = begin_tx
store_begin_tx on_tx = raise (audit begin_tx_unsupported)

-- `NewPostgresStore(db)` with its two optional interfaces.
unfoldable pub postgres_handle : Handle
unfolding postgres_store store_begin_tx
postgres_handle = record {
  store = postgres_store on_db;
  begin_tx = some (store_begin_tx on_db);
  with_tx = some (postgres_store on_tx);
}
