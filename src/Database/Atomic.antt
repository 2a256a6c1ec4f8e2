-- ===== src/Database/Atomic.antt =====
-- Rules for transactions: `BeginTx`, a statement in the transaction, `Commit`, and the deferred
-- rollback.
use featureflag_api.Prelude.{
  String, Bool, true, false, none, some, ◌≡◌, refl, sym, subst, ◌⊎◌, inl, inr,
}
use featureflag_api.Errors.{GoError}
use featureflag_api.Exec.{Result, ok, err, Exec}
use featureflag_api.Exec.Triple.{After, Triple}
use featureflag_api.Schema.{Tables}
use featureflag_api.Database.{
  World, Answer, Outcome, done, refused, lost, Statement, constraint, on_tx, run, begin_tx, commit,
  rollback, with_rollback, reply_of, kept, advance, begin_reply, rollback_on_error,
}

-- A transaction is open, begun at the tables `c`; the tables that it sees satisfy `Q`.
pub record InTx (c : Tables) (Q : Tables → Type 0) (w : World) : Type 0 where
  pub committed : w.committed ≡ c
  pub tables : Tables
  pub pending : w.pending ≡ some tables
  pub holds : Q tables

abbrev pub Untouched : Tables → World → Type 0
Untouched c w = w.committed ≡ c

-- What a statement ensures when it succeeds, from tables with `Q`.
abbrev pub Replies : {A : Type 0} → (A → Tables → Type 0) → Result A → Tables → Type 0
Replies R (ok a) t = R a t
Replies R (err e) t = Unit

-- A statement that fails by a constraint, and otherwise has its effect.
pub Replies-constraint :
    {A : Type 0} (R : A → Tables → Type 0) (violated : Bool) (code : String) (t : Tables)
    (out : Result A × Tables)
    → (violated ≡ false → Replies R out.0 out.1)
    → Replies R (constraint violated code t out).0 (constraint violated code t out).1
unfolding constraint
Replies-constraint R true code t out h = tt
Replies-constraint R false code t out h = h refl

reply-After :
    {A : Type 0} (c : Tables) (R : A → Tables → Type 0) (o : Outcome) (r : Result A) (t t' : Tables)
    (w : World)
    → w.committed ≡ c
    → Replies R r t'
    → After
        (λ a. InTx c (R a))
        (Untouched c)
        (reply_of o r)
        (record (advance w) { pending = some (kept o t t') })
reply-After c R done (ok a) t t' w e h = record {
  committed = e;
  tables = t';
  pending = refl;
  holds = h;
}
reply-After c R done (err x) t t' w e h = e
reply-After c R (refused x) r t t' w e h = e
reply-After c R (lost x) r t t' w e h = e

module _ {A : Type 0} {Q : Tables → Type 0} {R : A → Tables → Type 0} (c : Tables) (s : Statement A)
    (ensures : (a : Answer) (t : Tables) → Q t → Replies R (s a t).0 (s a t).1) where
  -- A statement in the transaction: the caller gets its value, or an error and the committed tables
  -- as they were.
  pub Triple-run : Triple (InTx c Q) (run on_tx s) (λ a. InTx c (R a)) (Untouched c)
  unfolding run
  Triple-run = record {
    at = λ w h. rw h.pending (
        reply-After c R (w.answers 0).outcome (s (w.answers 0) h.tables).0 h.tables
          (s (w.answers 0) h.tables).1 w h.committed (ensures (w.answers 0) h.tables h.holds));
  }

-- No transaction is open and the committed tables are `c`.
pub record Idle (c : Tables) (w : World) : Type 0 where
  pub committed : w.committed ≡ c
  pub pending : w.pending ≡ none

begin-After :
    (c : Tables) (Q : Tables → Type 0) (o : Outcome) (w : World)
    → Q c
    → Idle c w
    → After
        (λ _. InTx c Q)
        (Idle c)
        (reply_of o (ok tt))
        (record (advance w) { pending = begin_reply o w.committed; last_commit = none })
unfolding begin_reply
begin-After c Q done w q h = record {
  committed = h.committed;
  tables = w.committed;
  pending = refl;
  holds = subst Q (sym h.committed) q;
}
begin-After c Q (refused x) w q h = record { committed = h.committed; pending = refl }
begin-After c Q (lost x) w q h = record { committed = h.committed; pending = refl }

-- `BeginTx`: the transaction sees the committed tables.
pub Triple-begin_tx :
    (c : Tables) (Q : Tables → Type 0) → Q c → Triple (Idle c) begin_tx (λ _. InTx c Q) (Idle c)
unfolding begin_tx
Triple-begin_tx c Q q = record { at = λ w h. begin-After c Q (w.answers 0).outcome w q h }

-- The reply to the `Commit` was lost: the server did it, and the caller got an error. The committed
-- tables have `R` with some value.
pub record LostReply {A : Type 0} (R : A → Tables → Type 0) (w : World) : Type 0 where
  pub error : GoError
  pub reply_lost : w.last_commit ≡ some (lost error)
  pub value : A
  pub written : R value w.committed

pub LostReply-map :
    {A : Type 0} {R S : A → Tables → Type 0}
    → ((a : A) (t : Tables) → R a t → S a t)
    → (w : World) → LostReply R w
    → LostReply S w
LostReply-map f w h = record {
  error = h.error;
  reply_lost = h.reply_lost;
  value = h.value;
  written = f h.value w.committed h.written;
}

-- How a mutation ends: no transaction is left open. On success the committed tables have `R` with
-- the value; on an error they are those of before, or the reply to the `Commit` was lost.
pub record Committed {A : Type 0} (R : A → Tables → Type 0) (a : A) (w : World) : Type 0 where
  pub closed : w.pending ≡ none
  pub written : R a w.committed

pub record RolledBack {A : Type 0} (c : Tables) (R : A → Tables → Type 0) (w : World) : Type 0 where
  pub closed : w.pending ≡ none
  pub restored : (w.committed ≡ c) ⊎ LostReply R w

-- What holds of the committed tables on an error, before the deferred rollback.
abbrev pub Undecided : {B : Type 0} → Tables → (B → Tables → Type 0) → World → Type 0
Undecided c R w = (w.committed ≡ c) ⊎ LostReply R w

module _ {B : Type 0} (c : Tables) (R : B → Tables → Type 0) where
  commit-After :
      (b : B) (o : Outcome) (t : Tables) (w : World)
      → w.committed ≡ c
      → R b t
      → After
          (λ _. Committed R b)
          (Undecided c R)
          (reply_of o (ok tt))
          (record (advance w) {
            committed = kept o w.committed t;
            pending = none;
            last_commit = some o;
          })
  commit-After b done t w e q = record { closed = refl; written = q }
  commit-After b (refused x) t w e q = inl e
  commit-After b (lost x) t w e q =
      inr (record { error = x; reply_lost = refl; value = b; written = q })

  pub Triple-commit : (b : B) → Triple (InTx c (R b)) commit (λ _. Committed R b) (Undecided c R)
  unfolding commit
  Triple-commit b = record {
    at = λ w h. rw h.pending (commit-After b (w.answers 0).outcome h.tables w h.committed h.holds);
  }

  rollback-After :
      {A : Type 0} (Q : A → World → Type 0) (r : Result A) (w : World)
      → After Q (Undecided c R) r w
      → After Q (RolledBack c R) (rollback_on_error (r, w)).0 (rollback_on_error (r, w)).1
  unfolding rollback_on_error rollback
  rollback-After Q (ok b) w h = h
  rollback-After Q (err e) w h = record {
    closed = refl;
    restored = elim h [
      | inl same ↦ inl same
      | inr l ↦ inr (record {
        error = l.error;
        reply_lost = l.reply_lost;
        value = l.value;
        written = l.written;
      })
    ];
  }

  -- `defer Rollback` round a block that commits before it succeeds.
  pub Triple-with_rollback :
      {A : Type 0} {Q : A → World → Type 0} (P : Tables → Type 0) (m : Exec World A)
      → Triple (InTx c P) m Q (Undecided c R)
      → Triple (InTx c P) (with_rollback m) Q (RolledBack c R)
  unfolding with_rollback
  Triple-with_rollback {Q} P m t = record {
    at = λ w h. rollback-After Q (m w).0 (m w).1 (t.at w h);
  }

-- The tables that the transaction sees are `t`.
abbrev pub At : Tables → Tables → World → Type 0
At c t = InTx c (λ u. u ≡ t)

-- To fix the tables from which an action starts.
pub Triple-from :
    {A : Type 0} {c : Tables} {Q : Tables → Type 0} {m : Exec World A} {R : A → World → Type 0}
    {E : World → Type 0}
    → ((t : Tables) → Q t → Triple (At c t) m R E)
    → Triple (InTx c Q) m R E
Triple-from f = record {
  at = λ w h.
      (f h.tables h.holds).at w
        (record { committed = h.committed; tables = h.tables; pending = h.pending; holds = refl });
}

pub Triple-run-At :
    {A : Type 0} (c t : Tables) (R : A → Tables → Type 0) (s : Statement A)
    → ((a : Answer) → Replies R (s a t).0 (s a t).1)
    → Triple (At c t) (run on_tx s) (λ a. InTx c (R a)) (Untouched c)
Triple-run-At c t R s h =
    Triple-run c s (λ a u e. subst (λ v. Replies R (s a v).0 (s a v).1) (sym e) (h a))

-- What an action without statements keeps.
pub InTx-mono :
    {c : Tables} {P Q : Tables → Type 0} {w : World}
    → ((t : Tables) → P t → Q t)
    → InTx c P w
    → InTx c Q w
InTx-mono f h = record {
  committed = h.committed;
  tables = h.tables;
  pending = h.pending;
  holds = f h.tables h.holds;
}
