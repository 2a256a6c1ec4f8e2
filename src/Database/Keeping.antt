-- ===== src/Database/Keeping.antt =====
-- Actions outside a transaction: what they keep of the committed tables, whatever they return.
use featureflag_api.Prelude.{String, Bool, true, false, none, ◌≡◌}
use featureflag_api.Exec.{Result, ok, err, Exec}
use featureflag_api.Exec.Triple.{After, Triple}
use featureflag_api.Schema.{Tables}
use featureflag_api.Database.{
  constraint, World, Answer, Outcome, done, refused, lost, Statement, on_db, run, reply_of, kept,
  advance,
}

-- No transaction is open, and the committed tables have `P`.
abbrev pub Stands : (Tables → Type 0) → World → Type 0
Stands P w = (w.pending ≡ none) × P w.committed

abbrev pub Keeps : {A : Type 0} → (Tables → Type 0) → Exec World A → Type 0
Keeps P m = Triple (Stands P) m (λ _. Stands P) (Stands P)

run-After :
    {A : Type 0} (P : Tables → Type 0) (o : Outcome) (r : Result A) (u : Tables) (w : World)
    → Stands P w
    → P u
    → After
        (λ _. Stands P)
        (Stands P)
        (reply_of o r)
        (record (advance w) { committed = kept o w.committed u })
run-After P done (ok a) u w h g = (h.0, g)
run-After P done (err e) u w h g = (h.0, g)
run-After P (refused e) r u w h g = h
run-After P (lost e) r u w h g = (h.0, g)

-- A statement on the database.
pub Keeps-run :
    {A : Type 0} {P : Tables → Type 0} (s : Statement A)
    → ((a : Answer) (t : Tables) → P t → P (s a t).1)
    → Keeps P (run on_db s)
unfolding run
Keeps-run {P} s h = record {
  at = λ w stands.
      run-After P (w.answers 0).outcome (s (w.answers 0) w.committed).0
        (s (w.answers 0) w.committed).1 w stands (h (w.answers 0) w.committed stands.1);
}

-- A row that a constraint may refuse.
pub constraint_keeps :
    {A : Type 0} (P : Tables → Type 0) (violated : Bool) (code : String) (t : Tables)
    (out : Result A × Tables)
    → P t
    → P out.1
    → P (constraint violated code t out).1
unfolding constraint
constraint_keeps P true code t out h g = h
constraint_keeps P false code t out h g = g

After-Stands :
    {A : Type 0} (P : Tables → Type 0) (r : Result A) (w : World)
    → Stands P w
    → After (λ _. Stands P) (Stands P) r w
After-Stands P (ok a) w h = h
After-Stands P (err e) w h = h

Stands-of :
    {A : Type 0} (P : Tables → Type 0) (r : Result A) (w : World)
    → After (λ _. Stands P) (Stands P) r w
    → Stands P w
Stands-of P (ok a) w h = h
Stands-of P (err e) w h = h

-- The state after an action, whatever its reply.
pub Keeps-Stands :
    {A : Type 0} (P : Tables → Type 0) {m : Exec World A} {w : World}
    → Keeps P m
    → Stands P w
    → Stands P (m w).1
Keeps-Stands P {m} {w} k h = Stands-of P (m w).0 (m w).1 (k.at w h)

-- Another view of the reply of an action.
pub Keeps-reply :
    {A B : Type 0} (P : Tables → Type 0) (m : Exec World A) (f : Result A → Result B)
    → Keeps P m
    → Keeps P (λ w. (f (m w).0, (m w).1))
Keeps-reply P m f k = record { at = λ w h. After-Stands P (f (m w).0) (m w).1 (Keeps-Stands P k h) }
