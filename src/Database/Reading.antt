-- ===== src/Database/Reading.antt =====
-- Statements that read: what they leave, and what their replies say of the committed tables.
use featureflag_api.Prelude.{ℕ, ◌≡◌}
use featureflag_api.Errors.{GoError}
use featureflag_api.Exec.{Result, ok, err}
use featureflag_api.Exec.Triple.{After, Triple}
use featureflag_api.Schema.{Tables}
use featureflag_api.Database.{
  World, Answer, Outcome, done, refused, lost, Statement, on_db, run, reply_of, kept, advance,
}

-- The tables and the open transaction are those of another state.
pub record Unchanged (before : World) (w : World) : Type 0 where
  pub committed : w.committed ≡ before.committed
  pub pending : w.pending ≡ before.pending

-- A reply that says `R` of the tables, which the statement leaves.
abbrev pub Reads : {A : Type 0} → (A → Tables → Type 0) → Result A × Tables → Tables → Type 0
Reads R (ok a, u) t = R a t × (u ≡ t)
Reads R (err e, u) t = u ≡ t

read-After :
    {A : Type 0} (R : A → Tables → Type 0) (before w : World) (o : Outcome)
    (out : Result A × Tables)
    → Unchanged before w
    → Reads R out before.committed
    → After
        (λ a v. R a before.committed × Unchanged before v)
        (Unchanged before)
        (reply_of o out.0)
        (record (advance w) { committed = kept o w.committed out.1 })
read-After R before w done (ok a, u) h r = (r.0, record { committed = r.1; pending = h.pending })
read-After R before w done (err e, u) h r = record { committed = r; pending = h.pending }
read-After R before w (refused e) (r0, u) h r = record {
  committed = h.committed;
  pending = h.pending;
}
read-After R before w (lost e) (ok a, u) h r = record { committed = r.1; pending = h.pending }
read-After R before w (lost e) (err x, u) h r = record { committed = r; pending = h.pending }

-- A reading statement on the database.
pub Triple-read :
    {A : Type 0} (before : World) (R : A → Tables → Type 0) (s : Statement A)
    → ((a : Answer) → Reads R (s a before.committed) before.committed)
    → Triple
        (Unchanged before)
        (run on_db s)
        (λ a w. R a before.committed × Unchanged before w)
        (Unchanged before)
unfolding run
Triple-read before R s reads = record {
  at = λ w h.
      read-After R before w (w.answers 0).outcome (s (w.answers 0) w.committed) h
        (rw h.committed (reads (w.answers 0)));
}

-- A server on which every statement works.
abbrev pub Works : World → Type 0
Works w = (n : ℕ) → (w.answers n).outcome ≡ done

-- The error is this one, and the tables and the open transaction are those of before.
abbrev pub Refuses : {A : Type 0} → World → GoError → Result A × World → Type 0
Refuses w e out = (out.0 ≡ err e) × Unchanged w out.1
