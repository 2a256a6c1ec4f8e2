-- ===== src/Hash.antt =====
-- hash/fnv of the standard library, as `hashToBucket` of the flags and experiments services uses it.
use Prim.Native.Nat.{bit_xor}
use featureflag_api.Prelude.{ℕ, ◌*◌, ◌%◌, ◌^◌, ◌<◌, ◌≡◌, refl, String, List, [], ◌∷◌, arith, bytes}

abbrev pub offset32 : ℕ
offset32 = 2166136261

abbrev pub prime32 : ℕ
prime32 = 16777619

-- `New32a` and `Write`: the loop over the bytes.
unfoldable pub fnv32a : ℕ → List ℕ → ℕ
fnv32a h [] = h
fnv32a h (b ∷ bs) = fnv32a (bit_xor h b * prime32 % 2 ^ 32) bs

-- `int(h.Sum32() % 100)`
unfoldable pub hash_to_bucket : String → ℕ
unfolding fnv32a bytes
hash_to_bucket text = fnv32a offset32 (bytes text) % 100

-- The published test values of FNV-1a for "a" and "foobar".
fnv32a_values :
    (fnv32a offset32 (bytes "a") ≡ 0xe40c292c) × (fnv32a offset32 (bytes "foobar") ≡ 0xbf9cf968)
unfolding fnv32a bytes
fnv32a_values = (refl, refl)

-- A bucket is one of 0 to 99.
pub hash_to_bucket-lt : (text : String) → hash_to_bucket text < 100
unfolding hash_to_bucket
hash_to_bucket-lt text = omega arith
