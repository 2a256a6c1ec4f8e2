-- ===== src/Prelude/Lists.antt =====
-- Rows picked by a Boolean test, and `ORDER BY` a text column.
use Prim.Native.Nat.{ℕ, suc}
use mathlib.Core.Bool.{Bool, false, ◌||◌}
use mathlib.Core.Option.{Option, none, some}
use mathlib.Core.List.{List, [], ◌∷◌}
use Prim.Native.String.{String}
use featureflag_api.Prelude.Tests.{if◌then◌else◌}
use featureflag_api.Prelude.Text.{text_le}

module _ {ℓ} {A : Type ℓ} where
  unfoldable pub exists_by : (A → Bool) → List A → Bool
  exists_by p [] = false
  exists_by p (x ∷ xs) = p x || exists_by p xs

  -- The first row that passes.
  unfoldable pub find_by : (A → Bool) → List A → Option A
  find_by p [] = none
  find_by p (x ∷ xs) = if p x then some x else find_by p xs

  unfoldable pub filter_by : (A → Bool) → List A → List A
  filter_by p [] = []
  filter_by p (x ∷ xs) = let rest = filter_by p xs in if p x then x ∷ rest else rest

  unfoldable pub remove_by : (A → Bool) → List A → List A
  remove_by p [] = []
  remove_by p (x ∷ xs) = let rest = remove_by p xs in if p x then rest else x ∷ rest

  unfoldable pub update_by : (A → Bool) → (A → A) → List A → List A
  update_by p f [] = []
  update_by p f (x ∷ xs) = (if p x then f x else x) ∷ update_by p f xs

  unfoldable pub count_by : (A → Bool) → List A → ℕ
  count_by p [] = 0
  count_by p (x ∷ xs) = let rest = count_by p xs in if p x then suc rest else rest

  insert_sorted : (A → String) → A → List A → List A
  insert_sorted key x [] = x ∷ []
  insert_sorted key x (y ∷ ys) =
      if text_le (key x) (key y) then x ∷ y ∷ ys else y ∷ insert_sorted key x ys

  unfoldable pub sort_by : (A → String) → List A → List A
  unfolding insert_sorted
  sort_by key [] = []
  sort_by key (x ∷ xs) = insert_sorted key x (sort_by key xs)
