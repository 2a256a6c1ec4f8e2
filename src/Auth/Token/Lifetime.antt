-- ===== src/Auth/Token/Lifetime.antt =====
-- How long a token of `IssueToken` is accepted.
use featureflag_api.Prelude.{ℕ, ◌+◌, ◌≤◌, String, true, false, [], ◌∷◌, ◌=s◌, ◌≡◌}
use featureflag_api.Prelude.{NoSpace}
use featureflag_api.Prelude.Int.{ℤ}
use featureflag_api.Exec.{ok}
use featureflag_api.Auth.Token.{
  JwtClaims, JwtLibrary, second, effective_expiry, claims_at, issue_token, parse_and_validate,
}

-- What the library's documentation says of HS256 tokens: parsing with the key of the signature, at a
-- time from the start of validity until a second before the expiry (times in a token are whole
-- seconds), gives a valid token with the subject and the role that were signed; and a token is a
-- compact text, that is not empty and has no white space.
pub record IsJwt (jwt : JwtLibrary) : Type 0 where
  pub parse-signed_string :
      (c : JwtClaims) (secret token : String) (now : ℕ)
      → jwt.signed_string c secret ≡ ok token
      → c.not_before ≤ now
      → now + second ≤ c.expires_at
      → (d : JwtClaims) × (jwt.parse_with_claims now token secret ("HS256" ∷ []) c.issuer
          ≡ ok (d, true))
        × (d.subject ≡ c.subject)
        × (d.role ≡ c.role)
  pub token-NoSpace :
      (c : JwtClaims) (secret token : String)
      → jwt.signed_string c secret ≡ ok token
      → NoSpace token
  pub token_not_empty :
      (c : JwtClaims) (secret token : String)
      → jwt.signed_string c secret ≡ ok token
      → token =s "" ≡ false

-- A token of `IssueToken` is accepted by `ParseAndValidate` with the same secret from the moment of
-- issue until a second before its expiry (24 hours later if the expiry asked for is not positive),
-- and gives the user and the role that it was issued for, if neither is empty.
pub parse_and_validate-issue_token :
    (jwt : JwtLibrary) (issued now : ℕ) (user_id role secret token : String) (expiry : ℤ)
    → IsJwt jwt
    → issue_token jwt issued user_id role secret expiry ≡ ok token
    → user_id =s "" ≡ false
    → role =s "" ≡ false
    → issued ≤ now
    → now + second ≤ issued + effective_expiry expiry
    → parse_and_validate jwt now token secret ≡ ok (record { sub = user_id; role = role })
unfolding parse_and_validate issue_token
parse_and_validate-issue_token jwt issued now user_id role secret token expiry lib signed named
      ranked start end =
    let r =
      lib.parse-signed_string (claims_at issued user_id role expiry) secret token now signed start
        end in
    rw (r.1, r.2, r.3, named, ranked)
