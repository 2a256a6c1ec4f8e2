-- ===== src/Examples/SignIn.antt =====
-- The login of ann on the resolver of NewApp, and a request with her token an hour later.
use mathlib.Core.List.Memᴰ.{eq_of_singleton}
use featureflag_api.Prelude.{String, ◌*◌, ℕ, [], ◌=s◌, ◌≡◌, refl, ap, find_by, arith}
use featureflag_api.Exec.{ok}
use featureflag_api.Auth.{background, with_claims}
use featureflag_api.Auth.Token.{second, issue_token}
use featureflag_api.Schema.{User}
use featureflag_api.Database.{run}
use featureflag_api.Model.{LoginInput}
use featureflag_api.Users.{role_text}
use featureflag_api.Users.Postgres.{postgres_store, get_by_email, select_user}
use featureflag_api.Users.Service.{
  login as users_login, check_user, check_password, new_service, new_service_with_audit,
}
use featureflag_api.Users.SignIn.{SignedIn}
use featureflag_api.Http.{Server}
use featureflag_api.Http.Middleware.{auth}
use featureflag_api.Http.Guards.{incoming}
use featureflag_api.App.{new_app_resolver}
use featureflag_api.App.SignIn.{login-auth}
use featureflag_api.Transport.Mutations.{login}
use featureflag_api.Transport.Requests
use featureflag_api.Transport.Requests.{resolve}
use featureflag_api.Examples.People.{open_hash}
use featureflag_api.Examples.Requests.{libraries, long_secret, token_library, token_library-IsJwt}
use featureflag_api.Examples.Chain.{asking, counting}
use featureflag_api.Examples.{world, one_flag}

abbrev anns_login : LoginInput
anns_login = record { email = "ann@example.org"; password = "secret" }

anns_token :
    (resolve libraries
      (new_app_resolver long_secret)
      background
      (Requests.login anns_login)
      world).0
    ≡ ok (Requests.payload (record { token = "jwt" }))
unfolding resolve login new_app_resolver new_service_with_audit new_service postgres_store
    get_by_email select_user find_by run users_login check_user check_password role_text issue_token
anns_token = refl

abbrev an_hour_later : Server ℕ
an_hour_later = incoming [] (3600 * second) 0

login-auth_example :
    (reply : String × String) × SignedIn open_hash one_flag "ann@example.org" "secret" reply
    × (auth token_library long_secret counting (asking "Bearer jwt") an_hour_later
        ≡ counting
            (record (asking "Bearer jwt") {
              context = with_claims background (record { sub = reply.0; role = reply.1 });
            })
            an_hour_later)
login-auth_example =
    login-auth libraries long_secret background anns_login world (record { token = "jwt" }) counting
      (asking "Bearer jwt") an_hour_later token_library-IsJwt
      (λ u m. ap (λ (x : User). x.id =s "") (eq_of_singleton m)) anns_token (omega arith)
      (omega arith) refl
