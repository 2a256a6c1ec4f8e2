-- ===== src/Examples/Requests.antt =====
-- The secret, the tokens and the role check of the resolvers at concrete requests.
use mathlib.Core.List.{Memᴰ}
use featureflag_api.Prelude.{String, ◌=s◌, ◌≡◌, ◌↔◌, refl, true, none, some, [], ◌∷◌}
use featureflag_api.Prelude.{◌&&◌, ◌*◌, ◌≤◌, arith, bytes, length, eq_iff, sym, ap}
use featureflag_api.Prelude.{inl, inr, Bool-cases, if◌then◌else◌, NoSpace, is_space}
use featureflag_api.Prelude.Int.{pos}
use featureflag_api.Errors.{plain, auth}
use featureflag_api.Errors.Domain.{forbidden}
use featureflag_api.Exec.{ok, err}
use featureflag_api.Auth.{Context, from_context}
use featureflag_api.Auth.Token.{
  JwtClaims, JwtLibrary, claims_at, issue_token, parse_and_validate, second,
}
use featureflag_api.Auth.Token.Lifetime.{IsJwt, parse_and_validate-issue_token}
use featureflag_api.Config.{get_jwt_secret}
use featureflag_api.Config.Secret.{get_jwt_secret_iff}
use featureflag_api.App.{new_app_resolver}
use featureflag_api.Transport.{Libraries}
use featureflag_api.Transport.Requests
use featureflag_api.Transport.Requests.{resolve}
use featureflag_api.Transport.Access.{Denied, resolve-Denied}
use featureflag_api.Examples.People.{open_hash}
use featureflag_api.Examples.{world}

abbrev pub long_secret : String
long_secret = "0123456789abcdef0123456789abcdef"

abbrev environment : String → String
environment name = if name =s "JWT_SECRET" then long_secret else ""

get_jwt_secret_iff_example :
    (get_jwt_secret environment ≡ ok long_secret)
    ↔ ((environment "JWT_SECRET" ≡ long_secret) × (32 ≤ length (bytes long_secret)))
get_jwt_secret_iff_example = get_jwt_secret_iff environment long_secret

-- A library that signs the claims of the user ann only, for the examples.
abbrev anns : JwtClaims
anns = claims_at 0 "ann" "admin" (pos 0)

abbrev pub token_library : JwtLibrary
token_library = record {
  signed_string = λ c secret.
      if c.subject =s "ann" && c.role =s "admin" then ok "jwt" else err (plain "no key");
  parse_with_claims = λ now token secret methods issuer.
      if token =s "jwt" then ok (anns, true) else err (plain "token is malformed");
}

signed_for_ann :
    (c : JwtClaims) (secret token : String)
    → token_library.signed_string c secret ≡ ok token
    → (c.subject ≡ "ann") × (c.role ≡ "admin") × (token ≡ "jwt")
signed_for_ann c secret token signed = elim (Bool-cases (c.subject =s "ann")) [
  | inl named ↦ elim (Bool-cases (c.role =s "admin")) [
    | inl ranked ↦ (
      (eq_iff c.subject "ann").0 named,
      (eq_iff c.role "admin").0 ranked,
      cc (rw (named, ranked) at signed),
    )
    | inr other ↦ cc (rw (named, other) at signed)
  ]
  | inr other ↦ cc (rw other at signed)
]

pub token_library-IsJwt : IsJwt token_library
unfolding NoSpace is_space
token_library-IsJwt = record {
  parse-signed_string = λ c secret token now signed start end.
      let a = signed_for_ann c secret token signed in (anns, rw a.2 refl, sym a.0, sym a.1);
  token-NoSpace = λ c secret token signed.
      let a = signed_for_ann c secret token signed in rw a.2 (refl, (refl, (refl, tt)));
  token_not_empty =
      λ c secret token signed. let a = signed_for_ann c secret token signed in rw a.2 refl;
}

parse_and_validate-issue_token_example :
    parse_and_validate token_library (3600 * second) "jwt" long_secret
    ≡ ok (record { sub = "ann"; role = "admin" })
unfolding issue_token
parse_and_validate-issue_token_example =
    parse_and_validate-issue_token token_library 0 (3600 * second) "ann" "admin" long_secret "jwt"
      (pos 0) token_library-IsJwt refl refl refl (omega arith) (omega arith)

abbrev pub libraries : Libraries
libraries = record { bcrypt = open_hash; jwt = token_library; unmarshal = λ _. none; now = 0 }

-- A viewer who is called eve.
abbrev by_eve : Context
by_eve = record {
  auth_claims = some (record { sub = "eve"; role = "viewer" });
  auth_actor_id = none;
}

not_admin : ¬ (Memᴰ {A = String} "viewer" ("admin" ∷ []))
not_admin (Memᴰ.head e) = cc (ap (λ s. s =s "admin") e)
not_admin (Memᴰ.tail m) = elim m [ ]

resolve-Denied_example :
    resolve libraries (new_app_resolver long_secret) by_eve (Requests.delete_user "ann") world
    ≡ (err (auth (forbidden "viewer" ("admin" ∷ []))), world)
unfolding from_context
resolve-Denied_example =
    resolve-Denied libraries (new_app_resolver long_secret) by_eve (Requests.delete_user "ann")
      ("admin" ∷ []) (auth (forbidden "viewer" ("admin" ∷ []))) world refl
      (Denied.without_role (record { sub = "eve"; role = "viewer" }) refl not_admin)
