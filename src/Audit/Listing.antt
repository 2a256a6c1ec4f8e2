-- ===== src/Audit/Listing.antt =====
-- `List` of internal/audit/postgres.go: how many entries it returns, which, and in which order.
use featureflag_api.Prelude.{ℕ, zero, suc, ◌≤◌, ◌≡◌, refl, List, [], ◌∷◌, arith, length, Bool, true}
use featureflag_api.Prelude.{leb, if◌then◌else◌, filter_by, All, false, Bool-cases, inl, inr}
use featureflag_api.Prelude.Int.{ℤ, pos, negsuc, is_negative}
use featureflag_api.Exec.Triple.{After, Triple, Triple-if, Triple-raise, Triple-on_error}
use featureflag_api.Schema.{Entry}
use featureflag_api.Database.{World, on_db}
use featureflag_api.Database.Reading.{Unchanged, Triple-read}
use featureflag_api.Audit.{ListFilter}
use featureflag_api.Audit.Postgres.{
  list, list_checked, resolve_limit, select_entries, limited, skipped, newest_first, insert_newest,
  matches, count_of,
}

-- No entry is older than one that comes after it.
abbrev pub NewestFirst : List Entry → Type 0
NewestFirst [] = Unit
NewestFirst (e ∷ es) = All (λ d. d.created_at ≤ e.created_at) es × NewestFirst es

-- A page of `List`: at most 200 entries, all accepted by the filter, newest first.
pub record Page (f : ListFilter) (es : List Entry) : Type 0 where
  pub bounded : length es ≤ 200
  pub accepted : All (λ e. matches f e ≡ true) es
  pub ordered : NewestFirst es

length-limited : (n : ℕ) (es : List Entry) → length (limited n es) ≤ n
unfolding limited
length-limited zero es = omega arith
length-limited (suc n) [] = omega arith
length-limited (suc n) (e ∷ es) = omega (arith, length-limited n es)

module _ (P : Entry → Type 0) where
  All-limited : (n : ℕ) (es : List Entry) → All P es → All P (limited n es)
  unfolding limited
  All-limited zero es h = tt
  All-limited (suc n) [] h = tt
  All-limited (suc n) (e ∷ es) h = (h.0, All-limited n es h.1)

  All-skipped : (n : ℕ) (es : List Entry) → All P es → All P (skipped n es)
  unfolding skipped
  All-skipped zero es h = h
  All-skipped (suc n) [] h = tt
  All-skipped (suc n) (e ∷ es) h = All-skipped n es h.1

  All-if : (b : Bool) (xs ys : List Entry) → All P xs → All P ys → All P (if b then xs else ys)
  All-if true xs ys h k = h
  All-if false xs ys h k = k

  All-insert_newest : (e : Entry) (es : List Entry) → P e → All P es → All P (insert_newest e es)
  unfolding insert_newest
  All-insert_newest e [] p h = (p, tt)
  All-insert_newest e (d ∷ es) p h =
      All-if (leb d.created_at e.created_at) _ _ (p, h) (h.0, All-insert_newest e es p h.1)

  All-newest_first : (es : List Entry) → All P es → All P (newest_first es)
  unfolding newest_first
  All-newest_first [] h = tt
  All-newest_first (e ∷ es) h = All-insert_newest e _ h.0 (All-newest_first es h.1)

All-mono :
    (P Q : Entry → Type 0) (es : List Entry) → ((e : Entry) → P e → Q e) → All P es → All Q es
All-mono P Q [] f h = tt
All-mono P Q (e ∷ es) f h = (f e h.0, All-mono P Q es f h.1)

All-filter_by :
    (f : ListFilter) (es : List Entry) → All (λ e. matches f e ≡ true) (filter_by (matches f) es)
unfolding filter_by
All-filter_by f [] = tt
All-filter_by f (e ∷ es) = elim (Bool-cases (matches f e)) [
  | inl fits ↦ rw fits (fits, All-filter_by f es)
  | inr differs ↦ rw differs (All-filter_by f es)
]

NewestFirst-limited : (n : ℕ) (es : List Entry) → NewestFirst es → NewestFirst (limited n es)
unfolding limited
NewestFirst-limited zero es h = tt
NewestFirst-limited (suc n) [] h = tt
NewestFirst-limited (suc n) (e ∷ es) h = (All-limited _ n es h.0, NewestFirst-limited n es h.1)

NewestFirst-skipped : (n : ℕ) (es : List Entry) → NewestFirst es → NewestFirst (skipped n es)
unfolding skipped
NewestFirst-skipped zero es h = h
NewestFirst-skipped (suc n) [] h = tt
NewestFirst-skipped (suc n) (e ∷ es) h = NewestFirst-skipped n es h.1

NewestFirst-insert_newest :
    (e : Entry) (es : List Entry) → NewestFirst es → NewestFirst (insert_newest e es)
unfolding insert_newest
NewestFirst-insert_newest e [] h = (tt, tt)
NewestFirst-insert_newest e (d ∷ es) h = elim (Bool-cases (leb d.created_at e.created_at)) [
  | inl older ↦
      let le : d.created_at ≤ e.created_at = ground (arith, older) in
      rw older ((le, All-mono _ _ es (λ x b. omega (arith, le, b)) h.0), h)
  | inr newer ↦
      let le : e.created_at ≤ d.created_at = ground (arith, newer) in
      rw newer (All-insert_newest _ e es le h.0, NewestFirst-insert_newest e es h.1)
]

NewestFirst-newest_first : (es : List Entry) → NewestFirst (newest_first es)
unfolding newest_first
NewestFirst-newest_first [] = tt
NewestFirst-newest_first (e ∷ es) =
    NewestFirst-insert_newest e (newest_first es) (NewestFirst-newest_first es)

count_of-le : (limit : ℤ) → count_of (resolve_limit limit) ≤ 200
unfolding resolve_limit
count_of-le (pos n) = ground arith
count_of-le (negsuc n) = ground arith

limited-Page :
    (f : ListFilter) (n m : ℕ) (rows : List Entry)
    → n ≤ 200
    → Page f (limited n (skipped m (newest_first (filter_by (matches f) rows))))
limited-Page f n m rows bound =
    let sorted = newest_first (filter_by (matches f) rows) in
    record {
      bounded = let short = length-limited n (skipped m sorted) in omega (arith, short, bound);
      accepted =
          All-limited _ n (skipped m sorted)
            (All-skipped _ m sorted (All-newest_first _ _ (All-filter_by f rows)));
      ordered =
          NewestFirst-limited n (skipped m sorted)
            (NewestFirst-skipped m sorted (NewestFirst-newest_first (filter_by (matches f) rows)));
    }

module _ (w : World) (f : ListFilter) (limit offset : ℤ) where
  checked-Triple :
      Triple
        (Unchanged w)
        (list_checked on_db f (resolve_limit limit) offset)
        (λ es v. Page f es × Unchanged w v)
        (Unchanged w)
  unfolding list_checked select_entries
  checked-Triple =
      Triple-if (is_negative offset) _ _ (λ negative. Triple-raise _ (λ v h. h))
        (λ fine. Triple-on_error _ _ (
          Triple-read w (λ es t. Page f es) _
            (λ a. (
              limited-Page f (count_of (resolve_limit limit)) (count_of offset)
                  w.committed.audit_logs (count_of-le limit),
              refl,
            ))))

-- Whatever limit it is asked for, `List` returns at most 200 entries, all of which the filter
-- accepts, newest first, and changes nothing.
pub list-Page :
    (w : World) (f : ListFilter) (limit offset : ℤ)
    → let out = list on_db f limit offset w in
      After (λ es v. Page f es × Unchanged w v) (Unchanged w) out.0 out.1
unfolding list
list-Page w f limit offset =
    (checked-Triple w f limit offset).at w (record { committed = refl; pending = refl })
