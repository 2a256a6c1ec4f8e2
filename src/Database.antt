-- ===== src/Database.antt =====
-- The process's view of PostgreSQL through database/sql: the committed tables, the one transaction
-- that may be open, and what the server answers to the statements to come. Requests run one at a
-- time. The tables and the statements are those of internal/db/schema.go and internal/*/postgres.go.
pub mod Atomic
pub mod Reading
pub mod Keeping
use featureflag_api.Prelude.{ℕ, suc, String, Bool, Option, none, some, if◌then◌else◌}
use featureflag_api.Errors.{GoError, tx_done, pg_error}
use featureflag_api.Exec.{Result, ok, err, Exec}
use featureflag_api.Schema.{Tables}

-- A round trip to the server: it works, it fails with nothing done, or it is done on the server
-- and the caller still gets an error (a connection that breaks before the reply).
pub data Outcome : Type 0 where
  done : Outcome
  refused : GoError → Outcome
  lost : GoError → Outcome

-- What the server brings to one round trip, with a value each for gen_random_uuid() and now().
pub record Answer : Type 0 where
  pub outcome : Outcome
  pub uuid : String
  pub now : ℕ

-- `last_commit` is what became of the last `Commit` since a transaction began. No code reads it; the
-- theorems on errors do.
pub record World : Type 0 where
  pub committed : Tables
  pub pending : Option Tables
  pub last_commit : Option Outcome
  pub answers : ℕ → Answer

-- The `exec` of a store: the `*sql.DB`, or the open `*sql.Tx`.
pub data Conn : Type 0 where
  on_db on_tx : Conn

-- A statement, from the tables that it sees to its reply and the tables after it.
abbrev pub Statement : Type 0 → Type 0
Statement A = Answer → Tables → Result A × Tables

-- A row that a constraint of a table refuses: the error has the SQLSTATE, and nothing is written.
unfoldable pub constraint :
    {A : Type 0} → Bool → String → Tables → Result A × Tables → Result A × Tables
constraint violated code t out = if violated then (err (pg_error code), t) else out

abbrev pub advance : World → World
advance w = record w { answers = λ n. w.answers (suc n) }

-- What the caller sees of a reply, and what the server keeps.
abbrev pub reply_of : {A : Type 0} → Outcome → Result A → Result A
reply_of done r = r
reply_of (refused e) r = err e
reply_of (lost e) r = err e

abbrev pub kept : {A : Type 0} → Outcome → A → A → A
kept done old new = new
kept (refused e) old new = old
kept (lost e) old new = new

module _ {A : Type 0} where
  abbrev pub run_db : Statement A → Exec World A
  run_db s w =
      let a = w.answers 0 in
      let out = s a w.committed in
      (
        reply_of a.outcome out.0,
        record (advance w) { committed = kept a.outcome w.committed out.1 },
      )

  abbrev pub run_open : Option Tables → Statement A → Exec World A
  run_open none s w = (err tx_done, w)
  run_open (some t) s w =
      let a = w.answers 0 in
      let out = s a t in
      (reply_of a.outcome out.0, record (advance w) { pending = some (kept a.outcome t out.1) })

  -- `ExecContext`, `QueryContext`, `QueryRowContext`
  unfoldable pub run : Conn → Statement A → Exec World A
  run on_db s w = run_db s w
  run on_tx s w = run_open w.pending s w

begin_reply : Outcome → Tables → Option Tables
begin_reply done t = some t
begin_reply _ t = none

-- `BeginTx`
unfoldable pub begin_tx : Exec World Unit
unfolding begin_reply
begin_tx w =
    let a = w.answers 0 in
    (
      reply_of a.outcome (ok tt),
      record (advance w) { pending = begin_reply a.outcome w.committed; last_commit = none },
    )

commit_open : Option Tables → Exec World Unit
commit_open none w = (err tx_done, w)
commit_open (some t) w =
    let a = w.answers 0 in
    (
      reply_of a.outcome (ok tt),
      record (advance w) {
        committed = kept a.outcome w.committed t;
        pending = none;
        last_commit = some a.outcome;
      },
    )

-- `tx.Commit()`
unfoldable pub commit : Exec World Unit
unfolding commit_open
commit w = commit_open w.pending w

-- `_ = tx.Rollback()`: its error is dropped, and the server forgets the transaction either way.
unfoldable pub rollback : World → World
rollback w = record w { pending = none }

rollback_on_error : {A : Type 0} → Result A × World → Result A × World
rollback_on_error (ok a, w) = (ok a, w)
rollback_on_error (err e, w) = (err e, rollback w)

-- `defer func() { if !committed { _ = tx.Rollback() } }()` round a block that ends by `Commit`
unfoldable pub with_rollback : {A : Type 0} → Exec World A → Exec World A
unfolding rollback_on_error rollback
with_rollback m w = rollback_on_error (m w)
