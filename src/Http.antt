-- ===== src/Http.antt =====
-- The part of Go's net/http that transport/graphql/middleware uses: a request, a response writer,
-- and handlers, that may panic. `World` is what the innermost handler reads and changes.
pub mod Middleware
pub mod Authorization
pub mod Guards
use mathlib.Core.Option
use featureflag_api.Prelude.{ℕ, String, Option, none, some, List, [], ◌∷◌, ◌++◌, ◌<>◌, ◌=s◌}
use featureflag_api.Prelude.{if◌then◌else◌}
use featureflag_api.Prelude.Int.{ℤ}
use featureflag_api.Auth.{Context}

-- `authorization` is `r.Header.Get("Authorization")`, the empty text without the header;
-- `content_length` is -1 if unknown; `body_limit` is that of `http.MaxBytesReader` around the body.
pub record Request : Type 0 where
  pub method : String
  pub path : String
  pub authorization : String
  pub content_length : ℤ
  pub body : String
  pub body_limit : Option ℤ
  pub context : Context

abbrev pub Headers : Type 0
Headers = List (String × String)

-- `headers` is the map of `w.Header()`; `sent` is the status and the headers that went out.
pub record Response : Type 0 where
  pub headers : Headers
  pub sent : Option (ℕ × Headers)
  pub body : String

abbrev pub empty_response : Response
empty_response = record { headers = []; sent = none; body = "" }

-- The records of the logger: `logger.Info("request", …)` and `logger.Error("panic recovered …", …)`.
pub data LogRecord : Type 0 where
  request : (method path : String) (status duration_ms : ℕ) → LogRecord
  panic_recovered : (message : String) → LogRecord

-- `recorders` are the statuses of the `statusRecorder`s around the writer of the running handler,
-- the innermost first; `clock` is `time.Now()` in nanoseconds.
pub record Server (World : Type 0) : Type 0 where
  pub response : Response
  pub recorders : List ℕ
  pub log : List LogRecord
  pub clock : ℕ
  pub world : World

pub data Outcome : Type 0 where
  returned : Outcome
  panicked : (message : String) → Outcome

-- `http.Handler`
abbrev pub Handler : Type 0 → Type 0
Handler World = Request → Server World → Outcome × Server World

unfoldable pub without_header : String → Headers → Headers
without_header name [] = []
without_header name (h ∷ rest) =
    let others = without_header name rest in if h.0 =s name then others else h ∷ others

-- The first `WriteHeader` sends the status and the headers; a later one changes neither.
abbrev pub send : ℕ → Response → Response
send code r = record r { sent = some (Option.get_or r.sent (code, r.headers)) }

unfoldable pub all_set : ℕ → List ℕ → List ℕ
all_set code [] = []
all_set code (c ∷ rest) = code ∷ all_set code rest

module _ {World : Type 0} where
  -- `w.Header().Set(name, value)` and `w.Header().Del(name)`
  unfoldable pub set_header : String → String → Server World → Server World
  unfolding without_header
  set_header name value s = record s {
    response = record s.response {
      headers = without_header name s.response.headers ++ ((name, value) ∷ []);
    };
  }

  unfoldable pub delete_header : String → Server World → Server World
  unfolding without_header
  delete_header name s = record s {
    response = record s.response { headers = without_header name s.response.headers };
  }

  -- `w.WriteHeader(code)`: each `statusRecorder` keeps the code and passes it on to the writer that it
  -- is around (`(*statusRecorder).WriteHeader`).
  unfoldable pub write_header : ℕ → Server World → Server World
  unfolding all_set
  write_header code s = record s {
    response = send code s.response;
    recorders = all_set code s.recorders;
  }

  -- `w.Write(text)`: the writer below the recorders sends the status 200 if none is sent yet.
  unfoldable pub write_body : String → Server World → Server World
  write_body text s =
      let r = send 200 s.response in record s { response = record r { body = r.body <> text } }

  -- `http.Error(w, text, code)`
  unfoldable pub http_error : String → ℕ → Server World → Server World
  unfolding set_header delete_header write_header write_body
  http_error text code s = write_body (text <> "\n") (
      write_header code (
        set_header "X-Content-Type-Options" "nosniff" (
          set_header "Content-Type" "text/plain; charset=utf-8"
            (delete_header "Content-Length" s))))
