-- ===== src/Examples/Chain.antt =====
-- The chain of the server at concrete requests.
use featureflag_api.Examples.Requests.{long_secret, token_library, token_library-IsJwt}
use featureflag_api.Prelude.{String, ◌≡◌, ◌∙◌, refl, none, some, [], ◌∷◌}
use featureflag_api.Prelude.{ℕ, ◌+◌, cut_prefix, cut_prefix-append, arith, ap}
use featureflag_api.Prelude.Int.{pos}
use featureflag_api.Auth.{Claims, background}
use featureflag_api.Auth.Token.{issue_token, second}
use featureflag_api.Http.{
  empty_response, Request, Handler, returned, panicked, write_header, LogRecord,
}
use featureflag_api.Http.Middleware.{app_handler, bearer_prefix}
use featureflag_api.Http.Authorization.{Bearer, Authorized}
use featureflag_api.Http.Guards.{
  Refused, incoming, answer, json_headers, text_headers, app_handler-Refused,
  app_handler-issue_token, app_handler-panicked,
}

abbrev pub asking : String → Request
asking authorization = record {
  method = "POST";
  path = "/";
  authorization = authorization;
  content_length = pos 2;
  body = "{}";
  body_limit = none;
  context = background;
}

-- Handlers that count the requests they get.
abbrev pub counting : Handler ℕ
counting r s = (returned, write_header 200 (record s { world = s.world + 1 }))

abbrev breaking : Handler ℕ
breaking r s = (panicked "nil map", record s { world = s.world + 1 })

not-Bearer : ¬ ((c : Claims) × Bearer token_library long_secret 7 "Basic YW5u" c)
unfolding cut_prefix
not-Bearer b = cc (ap (cut_prefix bearer_prefix) b.1.1 ∙ cut_prefix-append bearer_prefix b.1.0)

app_handler-Refused_example :
    app_handler token_library long_secret counting (asking "Basic YW5u") (incoming [] 7 0) ≡ (
      returned,
      record {
        response = answer 401 json_headers "{\"error\":\"unauthorized\"}";
        recorders = [];
        log = LogRecord.request "POST" "/" 401 0 ∷ [];
        clock = 7;
        world = 0;
      },
    )
app_handler-Refused_example =
    app_handler-Refused token_library long_secret counting (asking "Basic YW5u") [] 7 0 401
      (answer 401 json_headers "{\"error\":\"unauthorized\"}")
      (Refused.unauthorized refl not-Bearer)

app_handler-issue_token_example :
    app_handler token_library long_secret counting (asking "Bearer jwt") (incoming [] second 0) ≡ (
      returned,
      record {
        response = record { headers = []; sent = some (200, []); body = "" };
        recorders = [];
        log = LogRecord.request "POST" "/" 200 0 ∷ [];
        clock = second;
        world = 1;
      },
    )
unfolding issue_token write_header
app_handler-issue_token_example =
    app_handler-issue_token token_library long_secret counting (asking "Bearer jwt") [] 0 second 0
      "ann" "admin" "jwt" (pos 0)
      (record {
        response = record { headers = []; sent = some (200, []); body = "" };
        recorders = 200 ∷ [];
        log = [];
        clock = second;
        world = 1;
      })
      200 token_library-IsJwt refl refl refl (omega arith) (omega arith) refl refl refl refl

app_handler-panicked_example :
    app_handler token_library long_secret breaking (asking "") (incoming [] 7 0) ≡ (
      returned,
      record {
        response = answer 500 text_headers "Internal Server Error\n";
        recorders = [];
        log = LogRecord.panic_recovered "nil map" ∷ [];
        clock = 7;
        world = 1;
      },
    )
app_handler-panicked_example =
    app_handler-panicked token_library long_secret breaking (asking "") [] 7 0 background
      (record { response = empty_response; recorders = 200 ∷ []; log = []; clock = 7; world = 1 })
      "nil map" 200 (Authorized.anonymous refl) refl refl refl refl
