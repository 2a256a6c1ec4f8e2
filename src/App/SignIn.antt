-- ===== src/App/SignIn.antt =====
-- A login on the resolver of NewApp, and a later request with its token.
use mathlib.Core.List.{Memᴰ}
use featureflag_api.Prelude.{String, ◌+◌, ◌≤◌, ◌<>◌, ◌=s◌, ◌≡◌, ◌∙◌, refl, false, ap, sym, subst}
use featureflag_api.Prelude.Int.{pos}
use featureflag_api.Prelude.Rows.{find_by-Memᴰ}
use featureflag_api.Exec.{Result, ok, err}
use featureflag_api.Exec.Triple.{After-ok}
use featureflag_api.Auth.{Claims, Context, with_claims}
use featureflag_api.Auth.Token.{second, issue_token}
use featureflag_api.Auth.Token.Lifetime.{IsJwt}
use featureflag_api.Schema.{User, Role}
use featureflag_api.Database.{World}
use featureflag_api.Database.Reading.{Unchanged}
use featureflag_api.Model.{LoginInput, LoginPayload}
use featureflag_api.Users.{role_text}
use featureflag_api.Users.Postgres.{has_email}
use featureflag_api.Users.Service.{
  login as users_login, new_service as users_base, new_service_with_audit as users_service,
}
use featureflag_api.Users.SignIn.{SignedIn, login-SignedIn}
use featureflag_api.Http.{Request, Server, Handler}
use featureflag_api.Http.Middleware.{auth, bearer_prefix}
use featureflag_api.Http.Authorization.{Bearer, Authorized, issued-Bearer, auth-Authorized}
use featureflag_api.App.{new_app_resolver, token_lifetime}
use featureflag_api.Transport.{Libraries}
use featureflag_api.Transport.Mutations.{login}
use featureflag_api.Transport.Requests
use featureflag_api.Transport.Requests.{resolve, map_ok}

role_text_not_empty : (r : Role) → role_text r =s "" ≡ false
unfolding role_text
role_text_not_empty Role.admin = refl
role_text_not_empty Role.developer = refl
role_text_not_empty Role.viewer = refl

module _ (lib : Libraries) (secret : String) (ctx : Context) (input : LoginInput) (w : World)
    (p : LoginPayload) where
  -- What a login did when it returned the token.
  record LoggedIn : Type 0 where
    reply : String × String
    found : (users_login lib.bcrypt users_base input.email input.password w).0 ≡ ok reply
    issued : issue_token lib.jwt lib.now reply.0 reply.1 secret (pos token_lifetime) ≡ ok p.token

  with_reply :
      (reply : String × String) (token : Result String)
      → (users_login lib.bcrypt users_base input.email input.password w).0 ≡ ok reply
      → issue_token lib.jwt lib.now reply.0 reply.1 secret (pos token_lifetime) ≡ token
      → (login lib (new_app_resolver secret) ctx input w).0 ≡ ok p
      → LoggedIn
  unfolding login new_app_resolver users_service users_login
  with_reply reply (err e) u i h = cc (rw (u, i) at h)
  with_reply reply (ok token) u i h =
      let q : LoginPayload = record { token = token } in
      let e : q ≡ p = cc (rw (u, i) at h) in
      record { reply = reply; found = u; issued = i ∙ ap (λ (x : LoginPayload). ok x.token) e }

  by_reply :
      (reply : Result (String × String))
      → (users_login lib.bcrypt users_base input.email input.password w).0 ≡ reply
      → (login lib (new_app_resolver secret) ctx input w).0 ≡ ok p
      → LoggedIn
  unfolding login new_app_resolver users_service users_login
  by_reply (err e) u h = cc (rw u at h)
  by_reply (ok reply) u h =
      with_reply reply (issue_token lib.jwt lib.now reply.0 reply.1 secret (pos token_lifetime)) u
        refl h

  payload_is :
      (r : Result LoginPayload) → map_ok Requests.payload r ≡ ok (Requests.payload p) → r ≡ ok p
  payload_is (err e) h = cc
  payload_is (ok q) h = ap ok (cc)

  resolved-LoggedIn :
      (resolve lib (new_app_resolver secret) ctx (Requests.login input) w).0
        ≡ ok (Requests.payload p)
      → LoggedIn
  unfolding resolve
  resolved-LoggedIn h = by_reply _ refl (payload_is _ h)

  LoggedIn-SignedIn :
      (l : LoggedIn) → SignedIn lib.bcrypt w.committed input.email input.password l.reply
  LoggedIn-SignedIn l =
      (After-ok _ (Unchanged w) l.found (login-SignedIn lib.bcrypt w input.email input.password)).0

-- The token that a login returns is good for its user: it is given for a stored user with the email,
-- whose hash the password matches, and a request with it behind `Bearer ` is passed on by the auth
-- middleware with the claims of that user, their ID and role, from the moment of the login until a
-- second before 24 hours later. (No stored ID is empty.)
pub login-auth :
    {V : Type 0} (lib : Libraries) (secret : String) (ctx : Context) (input : LoginInput)
    (w : World) (p : LoginPayload) (next : Handler V) (r : Request) (s : Server V)
    → IsJwt lib.jwt
    → ((u : User) → Memᴰ u w.committed.users → u.id =s "" ≡ false)
    → (resolve lib (new_app_resolver secret) ctx (Requests.login input) w).0
      ≡ ok (Requests.payload p)
    → lib.now ≤ s.clock
    → s.clock + second ≤ lib.now + token_lifetime
    → r.authorization ≡ bearer_prefix <> p.token
    → (reply : String × String) × SignedIn lib.bcrypt w.committed input.email input.password reply
      × (auth lib.jwt secret next r s
          ≡ next
              (record r {
                context = with_claims r.context (record { sub = reply.0; role = reply.1 });
              })
              s)
login-auth lib secret ctx input w p next r s jwt named logged start end header =
    let l = resolved-LoggedIn lib secret ctx input w p logged in
    let user = LoggedIn-SignedIn lib secret ctx input w p l in
    let there = find_by-Memᴰ (has_email input.email) user.user w.committed.users user.stored in
    let c : Claims = record { sub = l.reply.0; role = l.reply.1 } in
    let bearer =
      issued-Bearer lib.jwt secret lib.now s.clock c.sub c.role p.token (pos token_lifetime) jwt
        l.issued (rw (ap (λ (x : String × String). x.0) user.reply_is) (named user.user there.0))
        (rw (ap (λ (x : String × String). x.1) user.reply_is) (role_text_not_empty user.user.role))
        start end in
    (
      l.reply,
      user,
      auth-Authorized lib.jwt secret next r s _ (
          Authorized.signed_in c
            (subst (λ h. Bearer lib.jwt secret s.clock h c) (sym header) bearer)),
    )
