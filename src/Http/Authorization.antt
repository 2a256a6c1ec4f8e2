-- ===== src/Http/Authorization.antt =====
-- What the auth middleware does with the authorization of a request.
use featureflag_api.Prelude.{◌+◌, ◌≤◌, trim_space_lem}
use featureflag_api.Prelude.{ℕ, String, false, Option, none, some}
use featureflag_api.Prelude.{◌<>◌, ◌=s◌, ◌≡◌, ◌≢◌, refl, ap, sym, ◌∙◌}
use featureflag_api.Prelude.{trim_space, cut_prefix, cut_prefix-append}
use featureflag_api.Prelude.{cut_prefix_sound, Bool-cases, inl, inr, eq_iff}
use featureflag_api.Prelude.Int.{ℤ}
use featureflag_api.Exec.{Result, ok, err}
use featureflag_api.Auth.{Claims, Context, with_claims}
use featureflag_api.Auth.Token.{
  JwtLibrary, second, effective_expiry, claims_at, issue_token, parse_and_validate,
}
use featureflag_api.Auth.Token.Lifetime.{IsJwt, parse_and_validate-issue_token}
use featureflag_api.Http.{Request, Server, returned, Handler}
use featureflag_api.Http.Middleware.{bearer_prefix, write_unauthorized, with_token, auth}

-- The header holds a token that `ParseAndValidate` accepts.
abbrev pub Bearer : JwtLibrary → String → ℕ → String → Claims → Type 0
Bearer jwt secret now header c =
    (t : String) × (header ≡ bearer_prefix <> t)
    × (trim_space t =s "" ≡ false)
    × (parse_and_validate jwt now (trim_space t) secret ≡ ok c)

-- The context that the authorization of a request gives: its own without the header, and with the
-- claims of the token otherwise.
pub data Authorized (jwt : JwtLibrary) (secret : String) (now : ℕ) (r : Request)
    : Context → Type 0 where
  anonymous : r.authorization ≡ "" → Authorized jwt secret now r r.context
  signed_in :
      (c : Claims)
      → Bearer jwt secret now r.authorization c
      → Authorized jwt secret now r (with_claims r.context c)

Bearer-not_empty :
    (jwt : JwtLibrary) (secret : String) (now : ℕ) (h : String) (c : Claims)
    → Bearer jwt secret now h c
    → h =s "" ≡ false
unfolding cut_prefix
Bearer-not_empty jwt secret now h c b = elim (Bool-cases (h =s "")) [
  | inl empty ↦
      let p = ap (cut_prefix bearer_prefix) (sym ((eq_iff h "").0 empty) ∙ b.1) in
      cc (p ∙ cut_prefix-append bearer_prefix b.0)
  | inr not_empty ↦ not_empty
]

pub issued-Bearer :
    (jwt : JwtLibrary) (secret : String) (issued now : ℕ) (user_id role token : String) (expiry : ℤ)
    → IsJwt jwt
    → issue_token jwt issued user_id role secret expiry ≡ ok token
    → user_id =s "" ≡ false
    → role =s "" ≡ false
    → issued ≤ now
    → now + second ≤ issued + effective_expiry expiry
    → Bearer jwt secret now (bearer_prefix <> token) (record { sub = user_id; role = role })
unfolding issue_token
issued-Bearer jwt secret issued now user_id role token expiry lib signed named ranked start end =
    let c = claims_at issued user_id role expiry in
    let trimmed = trim_space_lem token (lib.token-NoSpace c secret token signed) in
    (
      token,
      refl,
      rw trimmed (lib.token_not_empty c secret token signed),
      rw trimmed (
          parse_and_validate-issue_token jwt issued now user_id role secret token expiry lib signed
            named ranked start end),
    )

module _ {World : Type 0} (jwt : JwtLibrary) (secret : String) (next : Handler World) where
  pub auth-Authorized :
      (r : Request) (s : Server World) (ctx : Context)
      → Authorized jwt secret s.clock r ctx
      → auth jwt secret next r s ≡ next (record r { context = ctx }) s
  unfolding auth with_token
  auth-Authorized r s ctx (anonymous absent) = rw absent
  auth-Authorized r s ctx (signed_in c b) = rw (
    Bearer-not_empty jwt secret s.clock r.authorization c b,
    b.1,
    cut_prefix-append bearer_prefix b.0,
    b.2,
    b.3,
  )

  with_token_refused :
      (r : Request) (s : Server World) (checked : Result Claims)
      → ((c : Claims) → checked ≢ ok c)
      → with_token next checked r s ≡ (returned, write_unauthorized s)
  unfolding with_token
  with_token_refused r s (err e) bad = refl
  with_token_refused r s (ok c) bad = absurd (bad c refl)

  refused_after :
      (r : Request) (s : Server World) (cut : Option String)
      → cut_prefix bearer_prefix r.authorization ≡ cut
      → r.authorization =s "" ≡ false
      → ¬ ((c : Claims) × Bearer jwt secret s.clock r.authorization c)
      → auth jwt secret next r s ≡ (returned, write_unauthorized s)
  unfolding auth
  refused_after r s none cut given bad = rw (given, cut)
  refused_after r s (some t) cut given bad = elim (Bool-cases (trim_space t =s "")) [
    | inl empty ↦ rw (given, cut, empty)
    | inr not_empty ↦
        let sound = cut_prefix_sound bearer_prefix r.authorization t cut in
        rw (given, cut, not_empty)
          (with_token_refused r s (parse_and_validate jwt s.clock (trim_space t) secret)
            (λ c accepted. bad (c, (t, sound, not_empty, accepted))))
  ]

  pub auth_refused :
      (r : Request) (s : Server World)
      → r.authorization =s "" ≡ false
      → ¬ ((c : Claims) × Bearer jwt secret s.clock r.authorization c)
      → auth jwt secret next r s ≡ (returned, write_unauthorized s)
  auth_refused r s = refused_after r s (cut_prefix bearer_prefix r.authorization) refl
