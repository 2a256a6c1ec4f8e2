-- ===== src/Users/SignIn.antt =====
-- `Login` of internal/users/service.go.
use featureflag_api.Prelude.{String, true, Option, none, some, ◌≡◌, refl, find_by}
use featureflag_api.Prelude.{◌↔◌, arith, ap}
use featureflag_api.Errors.{GoError, users}
use featureflag_api.Errors.Domain.{invalid_credentials}
use featureflag_api.Exec.{Result, ok, err}
use featureflag_api.Exec.Triple.{
  After-ok, After, Triple, Triple-pure, Triple-raise, Triple-if, Triple-bind, Triple-on_error,
  Triple_given,
}
use featureflag_api.Schema.{Tables, User}
use featureflag_api.Database.{World, run}
use featureflag_api.Database.Reading.{Unchanged, Triple-read, Works}
use featureflag_api.Users.{role_text}
use featureflag_api.Users.Postgres.{postgres_store, get_by_email, select_user, has_email}
use featureflag_api.Users.Service.{Bcrypt, new_service, login, check_user, check_password}

module _ (bcrypt : Bcrypt) where
  -- The reply is the ID and the role of a stored user with the email, whose hash matches.
  pub record SignedIn (t : Tables) (email password : String) (reply : String × String)
      : Type 0 where
    pub user : User
    pub stored : find_by (has_email email) t.users ≡ some user
    pub hash : String
    pub hash_is : user.password_hash ≡ some hash
    pub password_matches : bcrypt.password_matches hash password ≡ true
    pub reply_is : reply ≡ (user.id, role_text user.role)

  module _ (w : World) (email password : String) where
    abbrev Admitted : String × String → World → Type 0
    Admitted reply v = SignedIn w.committed email password reply × Unchanged w v

    check_password-Triple :
        (user : User) (o : Option String)
        → find_by (has_email email) w.committed.users ≡ some user
        → user.password_hash ≡ o
        → Triple (Unchanged w) (check_password bcrypt email password user o) Admitted (Unchanged w)
    unfolding check_password
    check_password-Triple user none f e = Triple-raise _ (λ v h. h)
    check_password-Triple user (some hash) f e =
        Triple-if _ _ _
          (λ same. Triple-pure _ (λ v h. (
            record {
              user = user;
              stored = f;
              hash = hash;
              hash_is = e;
              password_matches = same;
              reply_is = refl;
            },
            h,
          )))
          (λ differ. Triple-raise _ (λ v h. h))

    check_user-Triple :
        (o : Option User)
        → find_by (has_email email) w.committed.users ≡ o
        → Triple (Unchanged w) (check_user bcrypt email password o) Admitted (Unchanged w)
    unfolding check_user
    check_user-Triple none f = Triple-raise _ (λ v h. h)
    check_user-Triple (some user) f = check_password-Triple user user.password_hash f refl

    login-Triple :
        Triple (Unchanged w) (login bcrypt new_service email password) Admitted (Unchanged w)
    unfolding login new_service postgres_store get_by_email select_user
    login-Triple =
        Triple-bind _ _
          (Triple-on_error _ _ (
            Triple-on_error _ _
              (Triple-read w (λ o t. find_by (has_email email) t.users ≡ o) _ (λ a. (refl, refl)))))
          (λ o. Triple_given (check_user-Triple o))

  login-SignedIn-ok :
      (w : World) (email password : String) (reply : String × String)
      → Works w
      → SignedIn w.committed email password reply
      → (login bcrypt new_service email password w).0 ≡ ok reply
  unfolding login new_service postgres_store get_by_email select_user check_user check_password run
  login-SignedIn-ok w email password reply works s =
      rw (works 0, s.stored, s.hash_is, s.password_matches, s.reply_is)

  -- On a server that works, `Login` succeeds exactly for a stored user with the email whose stored
  -- hash the password matches, and returns that user's ID and role.
  pub login_iff :
      (w : World) (email password : String) (reply : String × String)
      → Works w
      → ((login bcrypt new_service email password w).0 ≡ ok reply)
        ↔ SignedIn w.committed email password reply
  login_iff w email password reply works = (
    λ h.
        (After-ok _ (Unchanged w) h
          ((login-Triple w email password).at w (record { committed = refl; pending = refl }))).0,
    login-SignedIn-ok w email password reply works,
  )

  -- `Login` succeeds only for a stored user with the email, whose stored hash the password matches,
  -- and then returns that user's ID and role; it never changes the tables.
  pub login-SignedIn :
      (w : World) (email password : String)
      → let out = login bcrypt new_service email password w in
        After
          (λ reply v. SignedIn w.committed email password reply × Unchanged w v)
          (Unchanged w)
          out.0
          out.1
  login-SignedIn w email password =
      (login-Triple w email password).at w (record { committed = refl; pending = refl })

  refused_error :
      (email password : String) (user : User) (o : Option String) (e : GoError) (w : World)
      → (check_password bcrypt email password user o w).0 ≡ err e
      → e ≡ users (invalid_credentials email)
  unfolding check_password
  refused_error email password user none e w h = cc
  refused_error email password user (some hash) e w h = ground arith

  unknown_error :
      (email password : String) (o : Option User) (e : GoError) (w : World)
      → (check_user bcrypt email password o w).0 ≡ err e
      → e ≡ users (invalid_credentials email)
  unfolding check_user
  unknown_error email password none e w h = cc
  unknown_error email password (some u) e w h = refused_error email password u u.password_hash e w h

  login_error :
      (w : World) (email password : String) (e : GoError)
      → Works w
      → (login bcrypt new_service email password w).0 ≡ err e
      → e ≡ users (invalid_credentials email)
  unfolding login new_service postgres_store get_by_email select_user run
  login_error w email password e works h =
      unknown_error email password (find_by (has_email email) w.committed.users) e _
        (rw (works 0) at h)

  refused_reply :
      (email : String) (r : Result (String × String))
      → ((reply : String × String) → ¬ (r ≡ ok reply))
      → ((e : GoError) → r ≡ err e → e ≡ users (invalid_credentials email))
      → r ≡ err (users (invalid_credentials email))
  refused_reply email (ok reply) f g = absurd (f reply refl)
  refused_reply email (err e) f g = ap err (g e refl)

  -- On a server that works, every other `Login` gives the same error: it does not tell an unknown
  -- email from a user without a password or a wrong password.
  pub login_refused :
      (w : World) (email password : String)
      → Works w
      → ((reply : String × String) → ¬ (SignedIn w.committed email password reply))
      → (login bcrypt new_service email password w).0 ≡ err (users (invalid_credentials email))
  login_refused w email password works no_user =
      refused_reply email _
        (λ reply h. no_user reply ((login_iff w email password reply works).0 h))
        (λ e. login_error w email password e works)
