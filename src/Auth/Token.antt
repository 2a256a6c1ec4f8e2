-- ===== src/Auth/Token.antt =====
-- internal/auth/jwt.go over the library github.com/golang-jwt/jwt. A time is a number of nanoseconds
-- since the epoch; `now` is `time.Now()` at the call.
pub mod Lifetime
use featureflag_api.Prelude.{ℕ, zero, suc, ◌+◌, ◌*◌, String, Bool, true, false, not, ◌||◌}
use featureflag_api.Prelude.{List, [], ◌∷◌, ◌=s◌, if◌then◌else◌}
use featureflag_api.Prelude.Int.{ℤ, pos, negsuc}
use featureflag_api.Errors.{plain}
use featureflag_api.Exec.{Result, ok, err}
use featureflag_api.Auth.{Claims}

-- `jwtClaims` with the fields of `jwt.RegisteredClaims` that the program sets.
pub record JwtClaims : Type 0 where
  pub subject : String
  pub role : String
  pub issuer : String
  pub issued_at : ℕ
  pub not_before : ℕ
  pub expires_at : ℕ

-- The two calls of the library: `NewWithClaims(SigningMethodHS256, claims).SignedString(secret)`,
-- and `ParseWithClaims` into a `jwtClaims` at a time, with the key, the valid methods and the issuer,
-- which gives `token.Claims` and `token.Valid`.
pub record JwtLibrary : Type 0 where
  pub signed_string : JwtClaims → (secret : String) → Result String
  pub parse_with_claims :
      (now : ℕ) (token secret : String) (methods : List String) (issuer : String)
      → Result (JwtClaims × Bool)

abbrev pub second : ℕ
second = 1_000_000_000

-- 24 * time.Hour
abbrev pub default_expiry : ℕ
default_expiry = 24 * 3600 * second

abbrev pub token_issuer : String
token_issuer = "featureflag-api"

-- jwt.ErrTokenInvalidClaims
abbrev pub invalid_claims : String
invalid_claims = "token has invalid claims"

-- `if expiry <= 0 { expiry = defaultExpiry }`
abbrev pub effective_expiry : ℤ → ℕ
effective_expiry (pos zero) = default_expiry
effective_expiry (pos (suc n)) = suc n
effective_expiry (negsuc n) = default_expiry

abbrev pub claims_at : ℕ → String → String → ℤ → JwtClaims
claims_at now user_id role expiry = record {
  subject = user_id;
  role = role;
  issuer = token_issuer;
  issued_at = now;
  not_before = now;
  expires_at = now + effective_expiry expiry;
}

module _ (jwt : JwtLibrary) where
  -- `IssueToken`
  unfoldable pub issue_token : ℕ → String → String → String → ℤ → Result String
  issue_token now user_id role secret expiry =
      jwt.signed_string (claims_at now user_id role expiry) secret

  unfoldable pub check_token : Result (JwtClaims × Bool) → Result Claims
  check_token (err e) = err e
  check_token (ok (c, valid)) =
      if not valid
      then err (plain invalid_claims)
      else if c.subject =s "" || c.role =s ""
      then err (plain invalid_claims)
      else ok (record { sub = c.subject; role = c.role })

  -- `ParseAndValidate`
  unfoldable pub parse_and_validate : ℕ → String → String → Result Claims
  unfolding check_token
  parse_and_validate now token secret =
      check_token (jwt.parse_with_claims now token secret ("HS256" ∷ []) token_issuer)
