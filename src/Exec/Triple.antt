-- ===== src/Exec/Triple.antt =====
-- What an action ensures: from a state with `P` it returns with `Q` of its value, or with `E`.
use featureflag_api.Prelude.{Bool, true, false, ◌≡◌, refl, subst, if◌then◌else◌}
use featureflag_api.Errors.{GoError}
use featureflag_api.Exec.{
  Result, ok, err, Exec, pure, raise, lift, map_err, on_error, continue, ◌>>=◌,
}

abbrev pub After {ℓ} : {S A : Type 0} → (A → S → Type ℓ) → (S → Type ℓ) → Result A → S → Type ℓ
After Q E (ok a) s = Q a s
After Q E (err e) s = E s

pub record Triple {ℓ} {S A : Type 0} (P : S → Type ℓ) (m : Exec S A) (Q : A → S → Type ℓ)
    (E : S → Type ℓ) : Type ℓ where
  pub at : (s : S) → P s → After Q E (m s).0 (m s).1

After-map_err {ℓ} :
    {S A : Type 0} (Q : A → S → Type ℓ) (E : S → Type ℓ) (f : GoError → GoError) (r : Result A)
    (s : S)
    → After Q E r s
    → After Q E (map_err f r) s
After-map_err Q E f (ok a) s h = h
After-map_err Q E f (err e) s h = h

After-bind {ℓ} :
    {S A B : Type 0} (Q : A → S → Type ℓ) (R : B → S → Type ℓ) (E : S → Type ℓ) (r : Result A)
    (f : A → Exec S B) (s : S)
    → After Q E r s
    → ((a : A) → Triple (Q a) (f a) R E)
    → After R E (continue r f s).0 (continue r f s).1
After-bind Q R E (ok a) f s h t = (t a).at s h
After-bind Q R E (err e) f s h t = h

module _ {ℓ} {S A : Type 0} {P : S → Type ℓ} {Q : A → S → Type ℓ} {E : S → Type ℓ} where
  pub Triple-pure : (a : A) → ((s : S) → P s → Q a s) → Triple P (pure a) Q E
  Triple-pure a h = record { at = h }

  pub Triple-raise : (e : GoError) → ((s : S) → P s → E s) → Triple P (raise e) Q E
  Triple-raise e h = record { at = h }

  pub Triple-lift :
      (r : Result A)
      → ((a : A) → r ≡ ok a → (s : S) → P s → Q a s)
      → ((s : S) → P s → E s)
      → Triple P (lift r) Q E
  Triple-lift (ok a) h g = record { at = h a refl }
  Triple-lift (err e) h g = record { at = g }

  pub Triple-on_error :
      (f : GoError → GoError) (m : Exec S A) → Triple P m Q E → Triple P (on_error f m) Q E
  Triple-on_error f m t = record { at = λ s p. After-map_err Q E f (m s).0 (m s).1 (t.at s p) }

  pub Triple-if :
      (b : Bool) (m n : Exec S A)
      → (b ≡ true → Triple P m Q E)
      → (b ≡ false → Triple P n Q E)
      → Triple P (if b then m else n) Q E
  Triple-if true m n t u = t refl
  Triple-if false m n t u = u refl

module _ {ℓ} {S A B : Type 0} {P : S → Type ℓ} {Q : A → S → Type ℓ} {R : B → S → Type ℓ}
    {E : S → Type ℓ} where
  pub Triple-bind :
      (m : Exec S A) (f : A → Exec S B)
      → Triple P m Q E
      → ((a : A) → Triple (Q a) (f a) R E)
      → Triple P (m >>= f) R E
  Triple-bind m f t u = record { at = λ s p. After-bind Q R E (m s).0 f (m s).1 (t.at s p) u }

After-mono {ℓ} :
    {S A : Type 0} (Q R : A → S → Type ℓ) (E F : S → Type ℓ) (r : Result A) (s : S)
    → ((a : A) → Q a s → R a s)
    → (E s → F s)
    → After Q E r s
    → After R F r s
After-mono Q R E F (ok a) s f g h = f a h
After-mono Q R E F (err e) s f g h = g h

-- A weaker postcondition.
pub Triple_mono {ℓ} :
    {S A : Type 0} {P : S → Type ℓ} {Q R : A → S → Type ℓ} {E F : S → Type ℓ} {m : Exec S A}
    → ((a : A) (s : S) → Q a s → R a s)
    → ((s : S) → E s → F s)
    → Triple P m Q E
    → Triple P m R F
Triple_mono {Q} {R} {E} {F} {m} f g t = record {
  at = λ s p. After-mono Q R E F (m s).0 (m s).1 (λ a. f a (m s).1) (g (m s).1) (t.at s p);
}

-- A fact of the precondition that does not speak of the state.
pub Triple_given {ℓ} :
    {S A : Type 0} {K : Type ℓ} {P : S → Type ℓ} {Q : A → S → Type ℓ} {E : S → Type ℓ}
    {m : Exec S A}
    → (K → Triple P m Q E)
    → Triple (λ s. K × P s) m Q E
Triple_given f = record { at = λ s h. (f h.0).at s h.1 }

-- A stronger precondition.
pub Triple_under {ℓ} :
    {S A : Type 0} {P R : S → Type ℓ} {Q : A → S → Type ℓ} {E : S → Type ℓ} {m : Exec S A}
    → ((s : S) → P s → R s)
    → Triple R m Q E
    → Triple P m Q E
Triple_under f t = record { at = λ s p. t.at s (f s p) }

-- The reply is known.
pub After-ok {ℓ} :
    {S A : Type 0} (Q : A → S → Type ℓ) (E : S → Type ℓ) {r : Result A} {a : A} {s : S}
    → r ≡ ok a
    → After Q E r s
    → Q a s
After-ok Q E {s} e h = subst (λ x. After Q E x s) e h
