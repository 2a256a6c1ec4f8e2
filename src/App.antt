-- ===== src/App.antt =====
-- internal/app/app.go: the resolver that `NewApp` builds, over the PostgreSQL stores that cmd/main.go
-- passes to it.
pub mod Reads
pub mod History
pub mod Invariants
pub mod Integrity
pub mod SignIn
use featureflag_api.Prelude.{ℕ, ◌*◌, String, some}
use featureflag_api.Prelude.Int.{pos}
use featureflag_api.Database.{on_db}
use featureflag_api.Audit.Postgres.{postgres_store}
use featureflag_api.Audit.Service as AuditService
use featureflag_api.Auth.Token.{second}
use featureflag_api.Flags.Service.{new_service_with_audit as flags_service}
use featureflag_api.Users.Service.{new_service_with_audit as users_service}
use featureflag_api.Experiments.Service.{new_service_with_audit as experiments_service_with_audit}
use featureflag_api.Transport.{Resolver, experiments_service}

-- 24*time.Hour
abbrev pub token_lifetime : ℕ
token_lifetime = 24 * 3600 * second

unfoldable pub new_app_resolver : String → Resolver
unfolding flags_service users_service experiments_service_with_audit experiments_service
new_app_resolver jwt_secret = record {
  flags = flags_service;
  users = users_service;
  experiments = some (experiments_service experiments_service_with_audit);
  audit = some (AuditService.new_service (postgres_store on_db));
  jwt_secret = jwt_secret;
  jwt_expiry = pos token_lifetime;
}
