-- ===== src/Prelude/Strings.antt =====
-- The functions of Go's package strings that look for a part of a text or cut one off, on code
-- points.
use Prim.Native.Nat.{ℕ}
use Prim.Native.Char.{code}
use Prim.Native.String.{String, [], ◌∷◌, ◌++◌ as ◌<>◌}
use mathlib.Core.Path.{◌≡◌, refl, sym, ap, ◌∙◌}
use mathlib.Core.Logic.{inl, inr}
use mathlib.Core.Bool.{Bool, false, ◌||◌, ◌&&◌}
use mathlib.Core.Option.{Option, none, some, some-injective}
use text.Mathlib.Text.{◌==◌ as ◌=s◌}
use text.Mathlib.TextEquality.{Char-path}
use text.Mathlib.TextLemmas.{cons-append, nil-append}
use native.Mathlib.Omega.{arith}
use featureflag_api.Prelude.Tests.{leb, ◌==◌, if◌then◌else◌, is_some, Bool-cases}

-- The text after a prefix, if the text has it.
unfoldable pub cut_prefix : String → String → Option String
cut_prefix [] s = some s
cut_prefix (p ∷ prefix) [] = none
cut_prefix (p ∷ prefix) (c ∷ s) =
    let rest = cut_prefix prefix s in if code p == code c then rest else none

-- `strings.HasPrefix(s, prefix)` and `strings.TrimPrefix(s, prefix)`
abbrev pub has_prefix : String → String → Bool
has_prefix s prefix = is_some (cut_prefix prefix s)

abbrev pub or_text : Option String → String → String
or_text none s = s
or_text (some t) s = t

abbrev pub trim_prefix : String → String → String
trim_prefix s prefix = or_text (cut_prefix prefix s) s

-- `unicode.IsSpace`
unfoldable pub is_space : ℕ → Bool
is_space c =
    leb 9 c && leb c 13
    || c == 32
    || c == 0x85
    || c == 0xA0
    || c == 0x1680
    || leb 0x2000 c && leb c 0x200A
    || c == 0x2028
    || c == 0x2029
    || c == 0x202F
    || c == 0x205F
    || c == 0x3000

unfoldable pub trim_left : String → String
trim_left [] = ""
trim_left (c ∷ s) = let rest = trim_left s in if is_space (code c) then rest else c ∷ s

unfoldable pub trim_right : String → String
trim_right [] = ""
trim_right (c ∷ s) =
    let rest = trim_right s in if rest =s "" && is_space (code c) then "" else c ∷ rest

-- `strings.TrimSpace(s)`
unfoldable pub trim_space : String → String
unfolding trim_left trim_right is_space
trim_space s = trim_right (trim_left s)

-- `strings.Contains(s, part)`
unfoldable pub contains : String → String → Bool
unfolding cut_prefix
contains [] part = part =s ""
contains (c ∷ s) part = has_prefix (c ∷ s) part || contains s part

pub cut_prefix-append : (prefix s : String) → cut_prefix prefix (prefix <> s) ≡ some s
unfolding cut_prefix
cut_prefix-append [] s = rw (nil-append s)
cut_prefix-append (p ∷ prefix) s =
    rw (cons-append p prefix s) (ground (arith, cut_prefix-append prefix s))

-- No character is a space.
unfoldable pub NoSpace : String → Type 0
NoSpace [] = Unit
NoSpace (c ∷ s) = (is_space (code c) ≡ false) × NoSpace s

trim_right_lem : (s : String) → NoSpace s → trim_right s ≡ s
unfolding trim_right NoSpace
trim_right_lem [] h = refl
trim_right_lem (c ∷ s) h = rw (trim_right_lem s h.1, h.0) (ground arith)

trim_left_lem : (s : String) → NoSpace s → trim_left s ≡ s
unfolding trim_left NoSpace
trim_left_lem [] h = refl
trim_left_lem (c ∷ s) h = rw h.0

pub trim_space_lem : (s : String) → NoSpace s → trim_space s ≡ s
unfolding trim_space
trim_space_lem s h = rw (trim_left_lem s h) (trim_right_lem s h)

pub cut_prefix_sound : (prefix s t : String) → cut_prefix prefix s ≡ some t → s ≡ prefix <> t
unfolding cut_prefix
cut_prefix_sound [] s t h = some-injective s t h ∙ sym (nil-append t)
cut_prefix_sound (p ∷ prefix) [] t h = cc
cut_prefix_sound (p ∷ prefix) (c ∷ s) t h = elim (Bool-cases (code p == code c)) [
  | inl same ↦
      let e = Char-path p c (ground (arith, same)) in
      rw (cons-append p prefix t, ← cut_prefix_sound prefix s t (rw same at h))
        (ap (λ x. x ∷ s) (sym e))
  | inr differ ↦ cc (rw differ at h)
]
