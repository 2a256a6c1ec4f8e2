-- ===== src/Exec.antt =====
-- A Go function that reads and changes the state outside the process and returns `(A, error)`.
-- What was written before an error stays written, so the state comes back beside the error too.

pub mod Triple
use featureflag_api.Errors.{GoError}

pub data Result {ℓ} (A : Type ℓ) : Type ℓ where
  ok : A → Result A
  err : GoError → Result A

abbrev pub Exec : Type 0 → Type 0 → Type 0
Exec S A = S → Result A × S

abbrev pub map_err : {A : Type 0} → (GoError → GoError) → Result A → Result A
map_err f (ok a) = ok a
map_err f (err e) = err (f e)

module _ {S A : Type 0} where
  abbrev pub pure : A → Exec S A
  pure a s = (ok a, s)

  abbrev pub raise : GoError → Exec S A
  raise e s = (err e, s)

  abbrev pub lift : Result A → Exec S A
  lift r s = (r, s)

  -- `if err != nil { return …, f(err) }`
  abbrev pub on_error : (GoError → GoError) → Exec S A → Exec S A
  on_error f m s = (map_err f (m s).0, (m s).1)

module _ {S A B : Type 0} where
  abbrev pub continue : Result A → (A → Exec S B) → Exec S B
  continue (ok a) f s = f a s
  continue (err e) f s = (err e, s)

  infixl 5 ◌>>=◌ ◌>>◌
  abbrev pub ◌>>=◌ : Exec S A → (A → Exec S B) → Exec S B
  ◌>>=◌ m f s = continue (m s).0 f (m s).1

  abbrev pub ◌>>◌ : Exec S A → Exec S B → Exec S B
  m >> n = m >>= λ _. n
