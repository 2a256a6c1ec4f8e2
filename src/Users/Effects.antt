-- ===== src/Users/Effects.antt =====
-- What the users store of a transaction, and the steps of internal/users/service.go over it, do to
-- the tables that the transaction sees.
use featureflag_api.Prelude.{
  ◌&&◌, ℕ, zero, suc, String, Bool, false, Option, none, some, [], ◌∷◌, ◌++◌,
}
use featureflag_api.Prelude.{◌≡◌, refl, arith, ◌||◌, exists_by, find_by, update_by}
use featureflag_api.Exec.{ok}
use featureflag_api.Exec.Triple.{
  Triple, Triple-pure, Triple-raise, Triple-lift, Triple-bind, Triple-on_error, Triple_given,
  Triple_mono,
}
use featureflag_api.Schema.{Tables, User}
use featureflag_api.Database.{Answer, on_tx}
use featureflag_api.Database.Atomic.{
  InTx, At, Untouched, Replies, Replies-constraint, Triple-run-At, Triple-from, InTx-mono,
}
use featureflag_api.Model.{CreateUserInput, UpdateUserInput}
use featureflag_api.Users.Postgres.{
  postgres_store, create, update, update_user, insert_user, get_by_id, get_by_email, require_rows,
  set_columns, taken_by_other, has_id, has_email,
}
use featureflag_api.Users.Service.{
  Bcrypt, create_user_with_store, update_user_with_store, ensure_unique_email_with_store, unused,
  new_user, set_password_if_provided, apply_update_fields_to_user, found,
}

-- The row that `Create` stores for a user: the values of the database, and the email was free.
pub record UserStored (before : Tables) (user row : User) (t : Tables) : Type 0 where
  pub email_is : row.email ≡ user.email
  pub role_is : row.role ≡ user.role
  pub password_hash_is : row.password_hash ≡ user.password_hash
  pub email_is_new : exists_by (has_email user.email) before.users ≡ false
  pub id_is_new : exists_by (has_id row.id) before.users ≡ false
  pub tables_are : t ≡ record before { users = before.users ++ row ∷ [] }

-- What `createUserWithStore` does: a user with the email and the role of the input and the hash of
-- its password, if it has one that is not empty.
pub record CreatedFrom (bcrypt : Bcrypt) (before : Tables) (input : CreateUserInput) (row : User)
    (t : Tables) : Type 0 where
  pub user : User
  pub hashed : set_password_if_provided bcrypt (new_user bcrypt input) input.password ≡ ok user
  pub stored : UserStored before user row t

abbrev pub user_updated : Tables → User → Tables
user_updated t user = record t { users = update_by (has_id user.id) (set_columns user) t.users }

-- The update of the row would give its email to two users.
abbrev pub conflicting : Tables → User → Bool
conflicting t user = exists_by (has_id user.id) t.users && exists_by (taken_by_other user) t.users

-- What an update of the row does.
record RowUpdated (before : Tables) (user : User) (t : Tables) : Type 0 where
  no_conflict : conflicting before user ≡ false
  tables_are : t ≡ user_updated before user

-- What `updateUserWithStore` does: the user of the ID gets the fields that the input has.
pub record UpdatedFrom (bcrypt : Bcrypt) (before : Tables) (input : UpdateUserInput) (row : User)
    (t : Tables) : Type 0 where
  pub user : User
  pub found_user : find_by (has_id input.id) before.users ≡ some user
  pub applied : apply_update_fields_to_user bcrypt user input ≡ ok row
  pub no_conflict : conflicting before row ≡ false
  pub tables_are : t ≡ user_updated before row

or_false : {a b : Bool} → (a || b) ≡ false → (a ≡ false) × (b ≡ false)
or_false {a} {b} h = ground arith

row-UserStored :
    (t : Tables) (user : User) (a : Answer)
    → (exists_by (has_email user.email) t.users || exists_by (has_id a.uuid) t.users) ≡ false
    → let row = record user { id = a.uuid; created_at = a.now } in
      UserStored t user row (record t { users = t.users ++ row ∷ [] })
row-UserStored t user a fresh = record {
  email_is = refl;
  role_is = refl;
  password_hash_is = refl;
  email_is_new = (or_false fresh).0;
  id_is_new = (or_false fresh).1;
  tables_are = refl;
}

insert_user-UserStored :
    (t : Tables) (user : User) (a : Answer)
    → Replies (UserStored t user) (insert_user user a t).0 (insert_user user a t).1
unfolding insert_user
insert_user-UserStored t user a = search (Replies-constraint, row-UserStored t user a)

update_user-Replies :
    (t : Tables) (user : User) (a : Answer)
    → Replies (λ _. RowUpdated t user) (update_user user a t).0 (update_user user a t).1
unfolding update_user
update_user-Replies t user a =
    Replies-constraint (λ _. RowUpdated t user) (conflicting t user) "23505" t _
      (λ free. record { no_conflict = free; tables_are = refl })

module _ (c t : Tables) where
  create-UserStored :
      (user : User)
      → Triple (At c t) (create on_tx user) (λ row. InTx c (UserStored t user row)) (Untouched c)
  unfolding create
  create-UserStored user =
      Triple-on_error _ _ (Triple-run-At c t (UserStored t user) _ (insert_user-UserStored t user))

  get_by_email-At :
      (email : String) → Triple (At c t) (get_by_email on_tx email) (λ _. At c t) (Untouched c)
  unfolding get_by_email
  get_by_email-At email = Triple-on_error _ _ (Triple-run-At c t (λ _ u. u ≡ t) _ (λ a. refl))

  get_by_id-At :
      (id : String)
      → Triple
          (At c t)
          (get_by_id on_tx id)
          (λ o. InTx c (λ u. (find_by (has_id id) t.users ≡ o) × (u ≡ t)))
          (Untouched c)
  unfolding get_by_id
  get_by_id-At id =
      Triple-on_error _ _ (
        Triple-run-At c t (λ o u. (find_by (has_id id) t.users ≡ o) × (u ≡ t)) _
          (λ a. (refl, refl)))

  unused-At :
      (email : String) (o : Option User)
      → Triple (At c t) (unused email o) (λ _. At c t) (Untouched c)
  unfolding unused
  unused-At email none = Triple-pure tt (λ w h. h)
  unused-At email (some u) = Triple-raise _ (λ w h. h.committed)

  ensure_unique-At :
      (email : String)
      → Triple
          (At c t)
          (ensure_unique_email_with_store (postgres_store on_tx) email)
          (λ _. At c t)
          (Untouched c)
  unfolding ensure_unique_email_with_store postgres_store
  ensure_unique-At email =
      Triple-bind _ _ (Triple-on_error _ _ (get_by_email-At email)) (unused-At email)

  found-At :
      (id : String) (o : Option User)
      → Triple
          (InTx c (λ u. (find_by (has_id id) t.users ≡ o) × (u ≡ t)))
          (found id o)
          (λ user. InTx c (λ u. (find_by (has_id id) t.users ≡ some user) × (u ≡ t)))
          (Untouched c)
  unfolding found
  found-At id none = Triple-raise _ (λ w h. h.committed)
  found-At id (some u) = Triple-pure u (λ w h. h)

  require_rows-InTx :
      (Q : Tables → Type 0) (id : String) (n : ℕ)
      → Triple (InTx c Q) (require_rows id n) (λ _. InTx c Q) (Untouched c)
  unfolding require_rows
  require_rows-InTx Q id zero = Triple-raise _ (λ w h. h.committed)
  require_rows-InTx Q id (suc n) = Triple-pure tt (λ w h. h)

  update-RowUpdated :
      (user : User)
      → Triple (At c t) (update on_tx user) (λ _. InTx c (RowUpdated t user)) (Untouched c)
  unfolding update
  update-RowUpdated user =
      Triple-bind _ _
        (Triple-on_error _ _
          (Triple-run-At c t (λ _. RowUpdated t user) _ (update_user-Replies t user)))
        (require_rows-InTx _ user.id)

  module _ (bcrypt : Bcrypt) where
    pub create-CreatedFrom :
        (input : CreateUserInput)
        → Triple
            (At c t)
            (create_user_with_store bcrypt (postgres_store on_tx) input)
            (λ row. InTx c (CreatedFrom bcrypt t input row))
            (Untouched c)
    unfolding create_user_with_store postgres_store
    create-CreatedFrom input = Triple-bind _ _ (ensure_unique-At input.email) (λ _.
        Triple-bind _ _ (Triple-lift _ (λ user e w h. (e, h)) (λ w h. h.committed)) (λ user.
          Triple_given (λ e. Triple-on_error _ _ (
            Triple_mono (λ row w. InTx-mono (λ u s. record { user = user; hashed = e; stored = s }))
              (λ w h. h) (create-UserStored user)))))

    pub update-UpdatedFrom :
        (input : UpdateUserInput)
        → Triple
            (At c t)
            (update_user_with_store bcrypt (postgres_store on_tx) input)
            (λ row. InTx c (UpdatedFrom bcrypt t input row))
            (Untouched c)
    unfolding update_user_with_store postgres_store
    update-UpdatedFrom input = Triple-bind _ _ (Triple-on_error _ _ (get_by_id-At input.id)) (λ o.
        Triple-bind _ _ (found-At input.id o) (λ user. Triple-from (λ u f. rw f.1 (
          Triple-bind _ _ (Triple-lift _ (λ row e w h. (e, h)) (λ w h. h.committed)) (λ row.
            Triple_given (λ e. Triple-bind _ _ (Triple-on_error _ _ (update-RowUpdated row)) (λ _.
              Triple-pure row (λ w. InTx-mono (λ x d. record {
                user = user;
                found_user = f.0;
                applied = e;
                no_conflict = d.no_conflict;
                tables_are = d.tables_are;
              })))))))))
