-- ===== src/Prelude/Text.antt =====
-- Go strings as native texts: their bytes (UTF-8), `strings.HasSuffix`, and the order on them.
use Prim.Native.Nat.{ℕ, ◌+◌, ◌/◌, ◌%◌, Ordering}
use Prim.Native.Char.{code}
use Prim.Native.String.{String, [], ◌∷◌, compare}
use mathlib.Core.Bool.{Bool, true, false, ◌||◌}
use mathlib.Core.List.{List, ◌++◌}
use text.Mathlib.Text.{◌==◌}
use featureflag_api.Prelude.Tests.{ltb, if◌then◌else◌}

-- The bytes of one code point.
utf8 : ℕ → List ℕ
utf8 c =
    if ltb c 0x80
    then List.◌∷◌ c List.[]
    else if ltb c 0x800
    then List.◌∷◌ (0xC0 + c / 0x40) (List.◌∷◌ (0x80 + c % 0x40) List.[])
    else if ltb c 0x10000
    then List.◌∷◌ (0xE0 + c / 0x1000)
        (List.◌∷◌ (0x80 + c / 0x40 % 0x40) (List.◌∷◌ (0x80 + c % 0x40) List.[]))
    else List.◌∷◌ (0xF0 + c / 0x40000) (
        List.◌∷◌ (0x80 + c / 0x1000 % 0x40)
          (List.◌∷◌ (0x80 + c / 0x40 % 0x40) (List.◌∷◌ (0x80 + c % 0x40) List.[])))

-- `[]byte(s)`
unfoldable pub bytes : String → List ℕ
unfolding utf8
bytes [] = List.[]
bytes (c ∷ s) = utf8 (code c) ++ bytes s

-- `strings.HasSuffix(s, suffix)`
unfoldable pub has_suffix : String → String → Bool
has_suffix [] suffix = suffix == ""
has_suffix (c ∷ s) suffix = (c ∷ s) == suffix || has_suffix s suffix

-- The order of `ORDER BY id` on canonical texts of UUIDs.
unfoldable pub text_le : String → String → Bool
text_le s t = elim (compare s t) [ Ordering.gt ↦ false | _ ↦ true ]
