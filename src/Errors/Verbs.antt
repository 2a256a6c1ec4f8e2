-- ===== src/Errors/Verbs.antt =====
-- The verbs `%q`, `%d` and `%v` of Go's fmt that the texts of the errors use.
use Prim.Native.Char.{code}
use Prim.Native.String.{slice}
use featureflag_api.Prelude.{ℕ, zero, suc, ◌+◌, ◌/◌, ◌%◌, String, Bool, ◌&&◌, ◌||◌, List}
use featureflag_api.Prelude.{◌<>◌, ◌==◌, ltb, leb, if◌then◌else◌}
use featureflag_api.Prelude.Int.{ℤ, pos, negsuc}

-- `unicode.IsPrint` above the ASCII range, and the driver's text of a `*pgconn.PgError`.
pub record TextLibrary : Type 0 where
  pub is_print : ℕ → Bool
  pub pg_text : (code : String) → String

abbrev digit : ℕ → String
digit n = slice "0123456789abcdef" n (n + 1)

decimal_on : (fuel n : ℕ) → String
decimal_on zero n = digit (n % 10)
decimal_on (suc fuel) n =
    let front = decimal_on fuel (n / 10) in if ltb n 10 then digit n else front <> digit (n % 10)

-- `%d`. A number has fewer digits than itself.
unfoldable pub decimal : ℤ → String
unfolding decimal_on
decimal (pos n) = decimal_on n n
decimal (negsuc n) = "-" <> decimal_on (n + 1) (n + 1)

-- That many hexadecimal digits.
hex : (digits n : ℕ) → String
hex zero n = ""
hex (suc digits) n = hex digits (n / 16) <> digit (n % 16)

module _ (lib : TextLibrary) where
  -- What `strconv.Quote` writes for a character that it does not keep.
  escaped : ℕ → String
  unfolding hex
  escaped c =
      if c == 7
      then "\\a"
      else if c == 8
      then "\\b"
      else if c == 12
      then "\\f"
      else if c == 10
      then "\\n"
      else if c == 13
      then "\\r"
      else if c == 9
      then "\\t"
      else if c == 11
      then "\\v"
      else if ltb c 0x20 || c == 0x7F
      then "\\x" <> hex 2 c
      else if ltb c 0x10000
      then "\\u" <> hex 4 c
      else "\\U" <> hex 8 c

  kept : ℕ → Bool
  kept c = leb 0x20 c && ltb c 0x7F || leb 0x80 c && lib.is_print c

  quoted : String → String
  unfolding escaped kept
  quoted String.[] = ""
  quoted (String.◌∷◌ c s) =
      let rest = quoted s in
      if code c == b'"' || code c == b'\\'
      then "\\" <> String.◌∷◌ c rest
      else if kept (code c)
      then String.◌∷◌ c rest
      else escaped (code c) <> rest

  -- `%q`
  unfoldable pub quote : String → String
  unfolding quoted
  quote s = "\"" <> quoted s <> "\""

-- `%v` of a slice, without the brackets
spaced : {A : Type 0} → (A → String) → List A → String
spaced f List.[] = ""
spaced f (List.◌∷◌ a List.[]) = f a
spaced f (List.◌∷◌ a (List.◌∷◌ b rest)) = f a <> " " <> spaced f (List.◌∷◌ b rest)

-- `%v` of a slice
unfoldable pub bracketed : {A : Type 0} → (A → String) → List A → String
unfolding spaced
bracketed f xs = "[" <> spaced f xs <> "]"
