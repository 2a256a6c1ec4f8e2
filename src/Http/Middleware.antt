-- ===== src/Http/Middleware.antt =====
-- transport/graphql/middleware, and the chain that internal/app/app.go builds of it.
use featureflag_api.Prelude.{ℕ, ◌-◌, ◌/◌, String, not, some, List}
use featureflag_api.Prelude.{[], ◌∷◌, ◌++◌, ◌=s◌, if◌then◌else◌}
use featureflag_api.Prelude.{has_prefix, trim_prefix, trim_space}
use featureflag_api.Prelude.Int.{ℤ, pos, int_lt}
use featureflag_api.Exec.{Result, ok, err}
use featureflag_api.Auth.{Claims, with_claims}
use featureflag_api.Auth.Token.{JwtLibrary, parse_and_validate}
use featureflag_api.Http.{
  Request, Server, Outcome, returned, panicked, Handler, LogRecord, set_header, write_header,
  write_body, http_error,
}

abbrev pub Middleware : Type 0 → Type 0
Middleware World = Handler World → Handler World

abbrev pub bearer_prefix : String
bearer_prefix = "Bearer "

-- 1<<20
abbrev pub max_body_bytes : ℤ
max_body_bytes = pos 1048576

abbrev pub millisecond : ℕ
millisecond = 1_000_000

-- `rec.status`, of the recorder that the innermost `Logging` made
abbrev pub recorded_status : List ℕ → ℕ
recorded_status [] = 200
recorded_status (code ∷ outer) = code

abbrev pub outer_recorders : List ℕ → List ℕ
outer_recorders [] = []
outer_recorders (code ∷ outer) = outer

module _ {World : Type 0} where
  -- `Chain`: the loop takes the middlewares from the last to the first.
  unfoldable pub chain : Handler World → List (Middleware World) → Handler World
  chain inner [] = inner
  chain inner (mw ∷ mws) = mw (chain inner mws)

  unfoldable pub write_unauthorized : Server World → Server World
  unfolding set_header write_header write_body
  write_unauthorized s =
      write_body "{\"error\":\"unauthorized\"}"
        (write_header 401 (set_header "Content-Type" "application/json" s))

  unfoldable pub with_token : Handler World → Result Claims → Handler World
  unfolding write_unauthorized
  with_token next (err e) r s = (returned, write_unauthorized s)
  with_token next (ok claims) r s = next (record r { context = with_claims r.context claims }) s

  unfoldable pub auth : JwtLibrary → String → Middleware World
  unfolding with_token write_unauthorized
  auth jwt secret next r s =
      let token = trim_space (trim_prefix r.authorization bearer_prefix) in
      if r.authorization =s ""
      then next r s
      else if not (has_prefix r.authorization bearer_prefix)
      then (returned, write_unauthorized s)
      else if token =s ""
      then (returned, write_unauthorized s)
      else with_token next (parse_and_validate jwt s.clock token secret) r s

  unfoldable pub body_limit : ℤ → Middleware World
  unfolding http_error
  body_limit max_bytes next r s =
      if int_lt max_bytes r.content_length
      then (returned, http_error "Request Entity Too Large" 413 s)
      else next (record r { body_limit = some max_bytes }) s

  -- The deferred function of `Recovery`, at the return or the panic of the handler.
  unfoldable pub recovered : Outcome × Server World → Outcome × Server World
  unfolding http_error
  recovered (returned, s) = (returned, s)
  recovered (panicked message, s) = (
    returned,
    http_error "Internal Server Error" 500
        (record s { log = s.log ++ (LogRecord.panic_recovered message ∷ []) }),
  )

  unfoldable pub recovery : Middleware World
  unfolding recovered
  recovery next r s = recovered (next r s)

  -- What `loggingHandler` does after the handler: a panic passes it by.
  unfoldable pub logged : Request → ℕ → Outcome × Server World → Outcome × Server World
  logged r start (panicked message, s) =
      (panicked message, record s { recorders = outer_recorders s.recorders })
  logged r start (returned, s) = (
    returned,
    record s {
      recorders = outer_recorders s.recorders;
      log =
          s.log
          ++ (LogRecord.request r.method r.path (recorded_status s.recorders)
                ((s.clock - start) / millisecond)
              ∷ []);
    },
  )

  unfoldable pub logging : Middleware World
  unfolding logged
  logging next r s = logged r s.clock (next r (record s { recorders = 200 ∷ s.recorders }))

  -- The handler of `NewApp` around that of the GraphQL library.
  unfoldable pub app_handler : JwtLibrary → String → Handler World → Handler World
  unfolding chain recovery logging auth body_limit
  app_handler jwt secret inner =
      chain inner (recovery ∷ logging ∷ auth jwt secret ∷ body_limit max_body_bytes ∷ [])
