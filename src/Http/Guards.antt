-- ===== src/Http/Guards.antt =====
-- What the chain of NewApp does with a request, whatever the GraphQL handler inside is.
use featureflag_api.Prelude.{◌+◌, ◌≤◌, arith}
use featureflag_api.Prelude.{ℕ, ◌-◌, ◌/◌, String, true, false, some, List}
use featureflag_api.Prelude.{[], ◌∷◌, ◌++◌, ◌<>◌, ◌=s◌, ◌≡◌, subst, refl, sym}
use featureflag_api.Prelude.Int.{ℤ, int_lt}
use featureflag_api.Exec.{ok}
use featureflag_api.Auth.{Claims, Context, with_claims}
use featureflag_api.Auth.Token.{JwtLibrary, second, effective_expiry, issue_token}
use featureflag_api.Auth.Token.Lifetime.{IsJwt}
use featureflag_api.Http.{
  Request, Response, Server, returned, panicked, Handler, Headers, LogRecord, set_header,
  write_header, write_body, http_error, empty_response, all_set, without_header, delete_header,
}
use featureflag_api.Http.Middleware.{
  bearer_prefix, max_body_bytes, chain, write_unauthorized, body_limit, recovered, recovery, logged,
  millisecond, logging, app_handler,
}
use featureflag_api.Http.Authorization.{
  Bearer, Authorized, issued-Bearer, auth-Authorized, auth_refused,
}

-- A request at the door of the chain: nothing is answered yet.
abbrev pub incoming : {World : Type 0} → List LogRecord → ℕ → World → Server World
incoming log clock world = record {
  response = empty_response;
  recorders = [];
  log = log;
  clock = clock;
  world = world;
}

abbrev pub answer : ℕ → Headers → String → Response
answer status headers text = record {
  headers = headers;
  sent = some (status, headers);
  body = text;
}

abbrev pub json_headers : Headers
json_headers = ("Content-Type", "application/json") ∷ []

abbrev pub text_headers : Headers
text_headers =
    ("Content-Type", "text/plain; charset=utf-8") ∷ ("X-Content-Type-Options", "nosniff") ∷ []

-- The requests that do not reach the GraphQL handler, with the status and the response of each.
pub data Refused (jwt : JwtLibrary) (secret : String) (now : ℕ) (r : Request)
    : ℕ → Response → Type 0 where
  unauthorized :
      r.authorization =s "" ≡ false
      → ¬ ((c : Claims) × Bearer jwt secret now r.authorization c)
      → Refused jwt secret now r 401 (answer 401 json_headers "{\"error\":\"unauthorized\"}")
  too_large :
      (ctx : Context)
      → Authorized jwt secret now r ctx
      → int_lt max_body_bytes r.content_length ≡ true
      → Refused jwt secret now r 413 (answer 413 text_headers "Request Entity Too Large\n")

clock_minus : (clock : ℕ) → clock - clock ≡ 0
clock_minus clock = omega arith

no_time : (clock : ℕ) → (clock - clock) / millisecond ≡ 0
no_time clock = rw (clock_minus clock) refl

module _ {World : Type 0} (jwt : JwtLibrary) (secret : String) (inner : Handler World) where
  -- A request whose authorization header is given without a token that `ParseAndValidate` accepts
  -- behind `Bearer `, or whose body is declared to be longer than 1 MiB, does not reach the GraphQL
  -- handler: the answer is 401 or 413 with its text, it is logged with that status, and the handler's
  -- state is unchanged.
  pub app_handler-Refused :
      (r : Request) (log : List LogRecord) (clock : ℕ) (world : World) (status : ℕ)
      (response : Response)
      → Refused jwt secret clock r status response
      → app_handler jwt secret inner r (incoming log clock world) ≡ (
        returned,
        record {
          response = response;
          recorders = [];
          log = log ++ (LogRecord.request r.method r.path status 0 ∷ []);
          clock = clock;
          world = world;
        },
      )
  unfolding app_handler chain recovery recovered logging logged body_limit write_unauthorized
      http_error set_header delete_header without_header write_header write_body all_set
  app_handler-Refused r log clock world status response (unauthorized given bad) =
      rw
        (auth_refused jwt secret (body_limit max_body_bytes inner) r
          (record (incoming log clock world) { recorders = 200 ∷ [] }) given bad)
        (rw (no_time clock))
  app_handler-Refused r log clock world status response (too_large ctx authorized large) =
      rw
        (
          auth-Authorized jwt secret (body_limit max_body_bytes inner) r
              (record (incoming log clock world) { recorders = 200 ∷ [] }) ctx authorized,
          large,
        )
        (rw (no_time clock))

  -- The GraphQL handler under `BodyLimit`, with its recorder.
  passed_on :
      (r : Request) (log : List LogRecord) (clock : ℕ) (world : World) (ctx : Context)
      → Authorized jwt secret clock r ctx
      → int_lt max_body_bytes r.content_length ≡ false
      → app_handler jwt secret inner r (incoming log clock world)
        ≡ recovered (
            logged r clock (
              inner
                (record r { context = ctx; body_limit = some max_body_bytes })
                (record (incoming log clock world) { recorders = 200 ∷ [] })))
  unfolding app_handler chain recovery logging body_limit
  passed_on r log clock world ctx authorized within = rw (
    auth-Authorized jwt secret (body_limit max_body_bytes inner) r
        (record (incoming log clock world) { recorders = 200 ∷ [] }) ctx authorized,
    within,
  )

  -- A request with a token of `IssueToken` behind `Bearer `, from the moment of issue until a second
  -- before the expiry, and with a body that is not declared to be longer than 1 MiB, is given to the
  -- GraphQL handler with the user and the role that the token was issued for as its claims, and with
  -- its body limited to 1 MiB. When the handler returns, its answer is the answer, and it is logged
  -- with the status that the handler set.
  pub app_handler-issue_token :
      (r : Request) (log : List LogRecord) (issued now : ℕ) (world : World)
      (user_id role token : String) (expiry : ℤ) (s : Server World) (status : ℕ)
      → IsJwt jwt
      → issue_token jwt issued user_id role secret expiry ≡ ok token
      → user_id =s "" ≡ false
      → role =s "" ≡ false
      → issued ≤ now
      → now + second ≤ issued + effective_expiry expiry
      → r.authorization ≡ bearer_prefix <> token
      → int_lt max_body_bytes r.content_length ≡ false
      → inner
          (record r {
            context = with_claims r.context (record { sub = user_id; role = role });
            body_limit = some max_body_bytes;
          })
          (record (incoming log now world) { recorders = 200 ∷ [] })
        ≡ (returned, s)
      → s.recorders ≡ status ∷ []
      → app_handler jwt secret inner r (incoming log now world) ≡ (
        returned,
        record s {
          recorders = [];
          log =
              s.log
              ++ (LogRecord.request r.method r.path status ((s.clock - now) / millisecond) ∷ []);
        },
      )
  unfolding recovered logged
  app_handler-issue_token r log issued now world user_id role token expiry s status lib signed named
        ranked start end header within ran recorder =
      let c : Claims = record { sub = user_id; role = role } in
      let bearer =
        subst (λ h. Bearer jwt secret now h c) (sym header)
          (issued-Bearer jwt secret issued now user_id role token expiry lib signed named ranked
            start end) in
      rw (
        passed_on r log now world (with_claims r.context c) (Authorized.signed_in c bearer) within,
        ran,
        recorder,
      )

  -- When the GraphQL handler panics before it has touched the response, the panic goes no further: the
  -- chain returns, the answer is 500 with a fixed text, and the panic is logged in place of the
  -- request.
  pub app_handler-panicked :
      (r : Request) (log : List LogRecord) (clock : ℕ) (world : World) (ctx : Context)
      (s : Server World) (message : String) (status : ℕ)
      → Authorized jwt secret clock r ctx
      → int_lt max_body_bytes r.content_length ≡ false
      → inner
          (record r { context = ctx; body_limit = some max_body_bytes })
          (record (incoming log clock world) { recorders = 200 ∷ [] })
        ≡ (panicked message, s)
      → s.response ≡ empty_response
      → s.recorders ≡ status ∷ []
      → app_handler jwt secret inner r (incoming log clock world) ≡ (
        returned,
        record s {
          response = answer 500 text_headers "Internal Server Error\n";
          recorders = [];
          log = s.log ++ (LogRecord.panic_recovered message ∷ []);
        },
      )
  unfolding recovered logged http_error set_header delete_header without_header write_header
      write_body all_set
  app_handler-panicked r log clock world ctx s message status authorized within ran untouched
        recorder =
      rw (passed_on r log clock world ctx authorized within, ran, recorder, untouched)
