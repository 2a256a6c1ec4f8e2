-- ===== src/Prelude/Int.antt =====
-- Go's `int` on a 64-bit platform: an integer, its 64-bit wrap-around, and `strconv.Atoi`.
use Prim.Native.Nat.{ℕ, zero, suc, ◌+◌, ◌-◌, ◌*◌, ◌%◌, ◌^◌}
use Prim.Native.Char.{code}
use Prim.Native.String.{String, [], ◌∷◌}
use mathlib.Core.Path.{◌≡◌, refl}
use mathlib.Core.Bool.{Bool, true, false, ◌&&◌}
use mathlib.Core.Option.{Option, none, some}
use featureflag_api.Prelude.Tests.{ltb, leb, ◌==◌, if◌then◌else◌}

-- `negsuc n` is -(n + 1).
pub data ℤ : Type 0 where
  pos : ℕ → ℤ
  negsuc : ℕ → ℤ

-- x < 0
abbrev pub is_negative : ℤ → Bool
is_negative (pos n) = false
is_negative (negsuc n) = true

abbrev pub int_eq : ℤ → ℤ → Bool
int_eq (pos m) (pos n) = m == n
int_eq (negsuc m) (negsuc n) = m == n
int_eq _ _ = false

-- a < b, for b given as a number
abbrev pub int_lt : ℤ → ℤ → Bool
int_lt (pos m) (pos n) = ltb m n
int_lt (pos m) (negsuc n) = false
int_lt (negsuc m) (pos n) = true
int_lt (negsuc m) (negsuc n) = ltb n m

abbrev pub word_modulus : ℕ
word_modulus = 2 ^ 64

-- The residue of an integer modulo 2 ^ 64, and the signed reading of a residue.
abbrev pub residue : ℤ → ℕ
residue (pos n) = n % word_modulus
residue (negsuc n) = word_modulus - 1 - n % word_modulus

abbrev pub signed : ℕ → ℤ
signed r = if ltb r (2 ^ 63) then pos r else negsuc (word_modulus - 1 - r)

-- `a + b` of Go's int64
unfoldable pub int_add : ℤ → ℤ → ℤ
int_add a b = signed ((residue a + residue b) % word_modulus)

digits : ℕ → String → Option ℕ
digits n [] = some n
digits n (ch ∷ rest) =
    let c = code ch in if leb 48 c && leb c 57 then digits (n * 10 + (c - 48)) rest else none

-- At least one digit.
natural : String → Option ℕ
unfolding digits
natural [] = none
natural (ch ∷ rest) = digits 0 (ch ∷ rest)

-- A value out of the range of `int` is an error too.
positive : Option ℕ → Option ℤ
positive none = none
positive (some n) = if ltb n (2 ^ 63) then some (pos n) else none

negative : Option ℕ → Option ℤ
negative none = none
negative (some zero) = some (pos 0)
negative (some (suc n)) = if ltb n (2 ^ 63) then some (negsuc n) else none

-- `strconv.Atoi(s)`; `none` is its error. A sign may stand in front of the digits.
unfoldable pub atoi : String → Option ℤ
unfolding natural positive negative
atoi [] = none
atoi (ch ∷ rest) =
    if code ch == b'-'
    then negative (natural rest)
    else if code ch == b'+'
    then positive (natural rest)
    else positive (natural (ch ∷ rest))

atoi_values :
    (atoi "30" ≡ some (pos 30))
    × (atoi "+7" ≡ some (pos 7))
    × (atoi "-1" ≡ some (negsuc 0))
    × (atoi "" ≡ none)
    × (atoi "1x" ≡ none)
    × (atoi "9223372036854775808" ≡ none)
    × (atoi "-9223372036854775808" ≡ some (negsuc 9223372036854775807))
unfolding atoi
atoi_values = (refl, refl, refl, refl, refl, refl, refl)
