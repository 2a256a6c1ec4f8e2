-- ===== src/Config.antt =====
-- internal/config/config.go. `getenv` is `os.Getenv`; a `*tls.Config` is a value of a type `C`.
pub mod Secret
use featureflag_api.Prelude.{String, Option, none, some, ◌=s◌, ◌<>◌, ◌||◌, if◌then◌else◌}
use featureflag_api.Prelude.{ℕ, ltb, length, bytes}
use featureflag_api.Errors.{GoError, wrapped, config}
use featureflag_api.Errors.Domain.{missing_jwt_secret, weak_jwt_secret}
use featureflag_api.Exec.{Result, ok, err}

abbrev pub min_jwt_secret_length : ℕ
min_jwt_secret_length = 32

abbrev or_default : String → String → String
or_default value default = if value =s "" then default else value

module _ (getenv : String → String) where
  unfoldable pub build_dsn_from_env : String
  build_dsn_from_env =
      let host = or_default (getenv "PGHOST") "localhost" in
      let port = or_default (getenv "PGPORT") "5432" in
      let user = or_default (getenv "PGUSER") "postgres" in
      let password = getenv "PGPASSWORD" in
      let dbname = or_default (getenv "PGDATABASE") "featureflag" in
      "postgres://" <> user <> ":" <> password <> "@" <> host <> ":" <> port <> "/" <> dbname
      <> "?sslmode=require"

  unfoldable pub get_dsn : String
  unfolding build_dsn_from_env
  get_dsn = let s = getenv "DATABASE_DSN" in if s =s "" then build_dsn_from_env else s

  unfoldable pub get_listen_addr : String
  get_listen_addr = let addr = getenv "LISTEN_ADDR" in if addr =s "" then ":8080" else addr

  -- `len(s)` is the number of bytes.
  unfoldable pub get_jwt_secret : Result String
  get_jwt_secret =
      let s = getenv "JWT_SECRET" in
      if s =s ""
      then err (config (missing_jwt_secret "JWT_SECRET"))
      else if ltb (length (bytes s)) min_jwt_secret_length
      then err (config (weak_jwt_secret min_jwt_secret_length (length (bytes s))))
      else ok s

  loaded : {C : Type 0} → Result C → Result (Option C)
  loaded (ok cfg) = ok (some cfg)
  loaded (err e) = err (wrapped "load TLS key pair" e)

  -- `nil, nil` if one of the two files is not set
  unfoldable pub load_tls_config : {C : Type 0} → (String → String → Result C) → Result (Option C)
  unfolding loaded
  load_tls_config loader =
      let cert_file = getenv "TLS_CERT_FILE" in
      let key_file = getenv "TLS_KEY_FILE" in
      if cert_file =s "" || key_file =s "" then ok none else loaded (loader cert_file key_file)
