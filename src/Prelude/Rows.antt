-- ===== src/Prelude/Rows.antt =====
-- Which rows the functions of Lists pick and keep.
use mathlib.Core.List.Memᴰ
use mathlib.Core.Path.{◌≡◌, refl, sym, ap, ◌∙◌}
use mathlib.Core.Logic.{◌⊎◌, inl, inr}
use mathlib.Core.Bool.{Bool, true, false}
use mathlib.Core.Option.{some, some-injective}
use mathlib.Core.List.{List, [], ◌∷◌, ◌++◌, Memᴰ}
use native.Mathlib.Omega.{arith}
use featureflag_api.Prelude.Tests.{Bool-cases}
use featureflag_api.Prelude.Lists.{exists_by, find_by, filter_by, remove_by, update_by}

module _ {A : Type 0} (p : A → Bool) where
  pub remove_by-Memᴰ : (x : A) (xs : List A) → Memᴰ x (remove_by p xs) → Memᴰ x xs × (p x ≡ false)
  unfolding remove_by
  remove_by-Memᴰ x [] m = elim m [ ]
  remove_by-Memᴰ x (y ∷ ys) m = elim (Bool-cases (p y)) [
    | inl picked ↦ let r = remove_by-Memᴰ x ys (rw picked at m) in (Memᴰ.tail r.0, r.1)
    | inr left ↦ elim (Memᴰ.cases_cons (rw left at m)) [
      | inl e ↦ (Memᴰ.head e, ap p e ∙ left)
      | inr later ↦ let r = remove_by-Memᴰ x ys later in (Memᴰ.tail r.0, r.1)
    ]
  ]

  pub Memᴰ-remove_by : (x : A) (xs : List A) → Memᴰ x xs → p x ≡ false → Memᴰ x (remove_by p xs)
  unfolding remove_by
  Memᴰ-remove_by x [] m h = elim m [ ]
  Memᴰ-remove_by x (y ∷ ys) (Memᴰ.head e) h = rw (ap p (sym e) ∙ h) (Memᴰ.head e)
  Memᴰ-remove_by x (y ∷ ys) (Memᴰ.tail m) h = elim (Bool-cases (p y)) [
    | inl picked ↦ rw picked (Memᴰ-remove_by x ys m h)
    | inr left ↦ rw left (Memᴰ.tail (Memᴰ-remove_by x ys m h))
  ]

  pub find_by-Memᴰ : (x : A) (xs : List A) → find_by p xs ≡ some x → Memᴰ x xs × (p x ≡ true)
  unfolding find_by
  find_by-Memᴰ x [] h = cc
  find_by-Memᴰ x (y ∷ ys) h = elim (Bool-cases (p y)) [
    | inl picked ↦
        let e = some-injective y x (rw picked at h) in (Memᴰ.head (sym e), ap p (sym e) ∙ picked)
    | inr left ↦ let r = find_by-Memᴰ x ys (rw left at h) in (Memᴰ.tail r.0, r.1)
  ]

  pub exists_by-false : (x : A) (xs : List A) → exists_by p xs ≡ false → Memᴰ x xs → p x ≡ false
  unfolding exists_by
  exists_by-false x [] h m = elim m [ ]
  exists_by-false x (y ∷ ys) h (Memᴰ.head e) = ap p e ∙ ground arith
  exists_by-false x (y ∷ ys) h (Memᴰ.tail m) = exists_by-false x ys (ground arith) m

  pub Memᴰ-exists_by : (x : A) (xs : List A) → Memᴰ x xs → p x ≡ true → exists_by p xs ≡ true
  unfolding exists_by
  Memᴰ-exists_by x [] m h = elim m [ ]
  Memᴰ-exists_by x (y ∷ ys) (Memᴰ.head e) h = rw (ap p (sym e) ∙ h)
  Memᴰ-exists_by x (y ∷ ys) (Memᴰ.tail m) h = rw (Memᴰ-exists_by x ys m h) (ground arith)

  pub filter_by-append :
      (xs ys : List A) → filter_by p (xs ++ ys) ≡ filter_by p xs ++ filter_by p ys
  unfolding filter_by
  filter_by-append [] ys = refl
  filter_by-append (x ∷ xs) ys = elim (Bool-cases (p x)) [
    | inl picked ↦ rw (picked, filter_by-append xs ys) refl
    | inr left ↦ rw (left, filter_by-append xs ys) refl
  ]

  pub filter_by_none : (xs : List A) → ((x : A) → Memᴰ x xs → p x ≡ false) → filter_by p xs ≡ []
  unfolding filter_by
  filter_by_none [] h = refl
  filter_by_none (x ∷ xs) h =
      rw (h x (Memᴰ.head refl)) (filter_by_none xs (λ y m. h y (Memᴰ.tail m)))

  pub filter_by_all : (xs : List A) → ((x : A) → Memᴰ x xs → p x ≡ true) → filter_by p xs ≡ xs
  unfolding filter_by
  filter_by_all [] h = refl
  filter_by_all (x ∷ xs) h =
      rw (h x (Memᴰ.head refl)) (ap (λ ys. x ∷ ys) (filter_by_all xs (λ y m. h y (Memᴰ.tail m))))

  module _ (f : A → A) where
    -- A row after an update is an updated one, or one that the test leaves.
    pub update_by-Memᴰ :
        (x : A) (xs : List A)
        → Memᴰ x (update_by p f xs)
        → (y : A) × Memᴰ y xs × (((p y ≡ true) × (x ≡ f y)) ⊎ ((p y ≡ false) × (x ≡ y)))
    unfolding update_by
    update_by-Memᴰ x [] m = elim m [ ]
    update_by-Memᴰ x (y ∷ ys) (Memᴰ.head e) = elim (Bool-cases (p y)) [
      | inl picked ↦ (y, Memᴰ.head refl, inl (picked, e ∙ rw picked refl))
      | inr left ↦ (y, Memᴰ.head refl, inr (left, e ∙ rw left refl))
    ]
    update_by-Memᴰ x (y ∷ ys) (Memᴰ.tail m) =
        let r = update_by-Memᴰ x ys m in (r.0, Memᴰ.tail r.1, r.2)

    pub Memᴰ-update_by_left :
        (x : A) (xs : List A) → Memᴰ x xs → p x ≡ false → Memᴰ x (update_by p f xs)
    unfolding update_by
    Memᴰ-update_by_left x [] m h = elim m [ ]
    Memᴰ-update_by_left x (y ∷ ys) (Memᴰ.head e) h = Memᴰ.head (e ∙ rw (ap p (sym e) ∙ h) refl)
    Memᴰ-update_by_left x (y ∷ ys) (Memᴰ.tail m) h = Memᴰ.tail (Memᴰ-update_by_left x ys m h)

    pub Memᴰ-update_by_picked :
        (x : A) (xs : List A) → Memᴰ x xs → p x ≡ true → Memᴰ (f x) (update_by p f xs)
    unfolding update_by
    Memᴰ-update_by_picked x [] m h = elim m [ ]
    Memᴰ-update_by_picked x (y ∷ ys) (Memᴰ.head e) h =
        Memᴰ.head (ap f e ∙ rw (ap p (sym e) ∙ h) refl)
    Memᴰ-update_by_picked x (y ∷ ys) (Memᴰ.tail m) h = Memᴰ.tail (Memᴰ-update_by_picked x ys m h)
