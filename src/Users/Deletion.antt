-- ===== src/Users/Deletion.antt =====
-- The audited `DeleteUser` of internal/users/service.go over the PostgreSQL stores.
use featureflag_api.Prelude.{ℕ, zero, suc, String, Bool, true, false, none, some, ◌≡◌, refl, inl}
use featureflag_api.Prelude.{count_by, remove_by, exists_by, if◌then◌else◌, inr}
use featureflag_api.Errors.{GoError, as_user_not_found}
use featureflag_api.Exec.{Result, ok, err}
use featureflag_api.Exec.Triple.{
  After, Triple, Triple-bind, Triple-on_error, Triple-raise, Triple-pure, Triple_mono, Triple_given,
}
use featureflag_api.Auth.{Context, actor_id_from_context}
use featureflag_api.Audit.{entity_user, action_delete}
use featureflag_api.Audit.Recorded.{Attributed, Recorded, finish-Triple, Idle-RolledBack}
use featureflag_api.Schema.{Tables}
use featureflag_api.Database.{World, on_tx, rollback}
use featureflag_api.Database.Atomic.{
  InTx, At, Untouched, Idle, Committed, RolledBack, LostReply-map, Undecided, Triple-run-At,
  Triple-with_rollback, InTx-mono,
}
use featureflag_api.Users.Postgres.{postgres_store, delete, require_rows, has_id, of_user}
use featureflag_api.Users.Service.{new_service_with_audit, delete_user_with_store, deleted_reply}
use featureflag_api.Users.Mutations.{
  AuditTxContext, delete_user, delete_by, audited_delete, finish_delete, rolled_back,
}
use featureflag_api.Users.FailClosed.{PreparedFor, prepare-Triple}

abbrev pub user_deleted : Tables → String → Tables
user_deleted t id = record t {
  users = remove_by (has_id id) t.users;
  experiment_assignments =
      if exists_by (has_id id) t.users
      then remove_by (of_user id) t.experiment_assignments
      else t.experiment_assignments;
}

-- What `deleteUserWithStore` does when it finds the user: the user and their assignments are gone.
pub record DeletedFrom (before : Tables) (id : String) (t : Tables) : Type 0 where
  pub others : ℕ
  pub was_there : count_by (has_id id) before.users ≡ suc others
  pub tables_are : t ≡ user_deleted before id

-- What is committed, with one audit entry of the actor for the user.
abbrev pub UserDeleted : Tables → Context → String → Bool → Tables → Type 0
UserDeleted c ctx id =
    Attributed {A = Unit {0}} ctx (λ _. DeletedFrom c id) (λ _. true) entity_user (λ _. id)
      action_delete

-- The reply of an audited deletion: committed with its entry, or no user was there and the tables
-- are those of before.
abbrev pub Finished : Tables → Context → String → Bool → World → Type 0
Finished c ctx id true = Committed (UserDeleted c ctx id) true
Finished c ctx id false = Idle c

-- The steps before the entry: the same with the transaction open.
abbrev Removed : Tables → Tables → String → Bool → World → Type 0
Removed c t id true = InTx c (DeletedFrom t id)
Removed c t id false = Untouched c

module _ (c t : Tables) (id : String) where
  require_rows-DeletedFrom :
      (n : ℕ)
      → Triple
          (InTx c (λ u. (count_by (has_id id) t.users ≡ n) × (u ≡ user_deleted t id)))
          (require_rows id n)
          (λ _. InTx c (DeletedFrom t id))
          (Untouched c)
  unfolding require_rows
  require_rows-DeletedFrom zero = Triple-raise _ (λ w h. h.committed)
  require_rows-DeletedFrom (suc n) =
      Triple-pure tt
        (λ w. InTx-mono (λ u h. record { others = n; was_there = h.0; tables_are = h.1 }))

  delete-DeletedFrom :
      Triple (At c t) (delete on_tx id) (λ _. InTx c (DeletedFrom t id)) (Untouched c)
  unfolding delete
  delete-DeletedFrom =
      Triple-bind _ _
        (Triple-on_error _ _ (
          Triple-run-At c t (λ n u. (count_by (has_id id) t.users ≡ n) × (u ≡ user_deleted t id)) _
            (λ a. (refl, refl))))
        require_rows-DeletedFrom

  not_found-Removed :
      (absent : Bool) (e : GoError) (w : World)
      → w.committed ≡ c
      → After (Removed c t id) (Untouched c) (if absent then ok false else err e) w
  not_found-Removed true e w h = h
  not_found-Removed false e w h = h

  reply-Removed :
      (f : GoError → GoError) (r : Result (Unit {0})) (w : World)
      → After (λ _. InTx c (DeletedFrom t id)) (Untouched c) r w
      → After (Removed c t id) (Untouched c) (deleted_reply r f) w
  unfolding deleted_reply
  reply-Removed f (ok x) w h = h
  reply-Removed f (err e) w h = not_found-Removed (as_user_not_found e) (f e) w h

  delete_user-Removed :
      Triple
        (At c t)
        (delete_user_with_store (postgres_store on_tx) id)
        (Removed c t id)
        (Untouched c)
  unfolding delete_user_with_store postgres_store
  delete_user-Removed = record {
    at = λ w h.
        reply-Removed _ (delete on_tx id w).0 (delete on_tx id w).1 (delete-DeletedFrom.at w h);
  }

module _ (c : Tables) (ctx : Context) (id : String) where
  Committed-Finished :
      (actor : String)
      → actor_id_from_context ctx ≡ some actor
      → (b : Bool) (w : World)
      → Committed
          (Recorded {A = Unit {0}}
            (λ _. DeletedFrom c id)
            (λ _. true)
            entity_user
            (λ _. id)
            action_delete
            actor)
          b
          w
      → Finished c ctx id b w
  Committed-Finished actor e true w h = record {
    closed = h.closed;
    written = record { actor = actor; actor_is = e; recorded = h.written };
  }
  Committed-Finished actor e false w h = cc (h.written.result_is)

  Undecided-UserDeleted :
      (actor : String)
      → actor_id_from_context ctx ≡ some actor
      → (w : World)
      → Undecided c
          (Recorded {A = Unit {0}}
            (λ _. DeletedFrom c id)
            (λ _. true)
            entity_user
            (λ _. id)
            action_delete
            actor)
          w
      → Undecided c (UserDeleted c ctx id) w
  Undecided-UserDeleted actor e w (inl same) = inl same
  Undecided-UserDeleted actor e w (inr h) =
      inr (LostReply-map (λ b t r. record { actor = actor; actor_is = e; recorded = r }) w h)

  finish-Finished :
      (tx : AuditTxContext)
      → PreparedFor ctx tx
      → (b : Bool)
      → Triple
          (Removed c c id b)
          (finish_delete tx id b)
          (Finished c ctx id)
          (Undecided c (UserDeleted c ctx id))
  unfolding finish_delete rolled_back rollback
  finish-Finished tx p true =
      Triple_mono (Committed-Finished tx.actor_id p.0) (Undecided-UserDeleted tx.actor_id p.0) (
        rw p.2 (
          finish-Triple c (λ t. t ≡ c) (λ _. DeletedFrom c id) (λ _. true) entity_user (λ _. id)
            action_delete tx.actor_id tt))
  finish-Finished tx p false = record { at = λ w h. record { committed = h; pending = refl } }

  audited_delete-Finished :
      (tx : AuditTxContext)
      → PreparedFor ctx tx
      → Triple
          (At c c)
          (audited_delete tx id)
          (Finished c ctx id)
          (RolledBack c (UserDeleted c ctx id))
  unfolding audited_delete
  audited_delete-Finished tx p =
      Triple-with_rollback c (UserDeleted c ctx id) (λ t. t ≡ c) _
        (Triple-bind _ _ (Triple_mono (λ b w h. h) (λ w. inl) (rw p.1 (delete_user-Removed c c id)))
          (finish-Finished tx p))

  delete_user-Triple :
      Triple
        (Idle c)
        (delete_user new_service_with_audit ctx id)
        (Finished c ctx id)
        (RolledBack c (UserDeleted c ctx id))
  unfolding delete_user new_service_with_audit delete_by
  delete_user-Triple =
      Triple-bind _ _ (Triple_mono (λ tx w h. h) (Idle-RolledBack c _) (prepare-Triple c ctx))
        (λ tx. Triple_given (audited_delete-Finished tx))

-- An audited `DeleteUser` is all or nothing, whatever the server answers. When it returns true, the
-- user of the ID was there, they and their assignments are gone, and there is one audit entry of the
-- actor for it. When it returns false, nothing has changed. On an error the committed tables are those
-- of before, or, if the reply to the commit was lost, those of a deletion with its entry. In all cases
-- no transaction stays open.
pub delete_user_fail_closed :
    (w : World) (ctx : Context) (id : String)
    → w.pending ≡ none
    → let out = delete_user new_service_with_audit ctx id w in
      After
        (Finished w.committed ctx id)
        (RolledBack w.committed (UserDeleted w.committed ctx id))
        out.0
        out.1
delete_user_fail_closed w ctx id idle =
    (delete_user-Triple w.committed ctx id).at w (record { committed = refl; pending = idle })
