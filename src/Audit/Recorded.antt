-- ===== src/Audit/Recorded.antt =====
-- The audited block of the services, over the PostgreSQL stores: the change, its entry and
-- the commit.
use featureflag_api.Prelude.{String, Option, none, some, [], ◌∷◌, ◌++◌, ◌≡◌, refl, inl, inr}
use featureflag_api.Exec.{Exec, pure, ◌>>=◌, ◌>>◌}
use featureflag_api.Exec.Triple.{
  Triple, Triple-pure, Triple-raise, Triple-bind, Triple-on_error, Triple_mono,
}
use featureflag_api.Auth.{Context, actor_id_from_context}
use featureflag_api.Schema.{Tables, Entry}
use featureflag_api.Database.{World, Answer, on_tx, commit, with_rollback}
use featureflag_api.Database.Atomic.{
  InTx, Untouched, Idle, Committed, RolledBack, LostReply-map, Undecided, Replies,
  Replies-constraint, Triple-run, Triple-begin_tx, Triple-commit, Triple-with_rollback,
}
use featureflag_api.Audit.{Store}
use featureflag_api.Audit.Postgres.{postgres_store, postgres_handle, insert_entry}
use featureflag_api.Audit.Write.{prepare_write_tx, write_entry, with_actor, begin_write}

-- The tables are some that have `Q`, with one audit entry more.
pub record Logged (Q : Tables → Type 0) (entity entity_id action actor : String) (t : Tables)
    : Type 0 where
  pub before : Tables
  pub holds : Q before
  pub entry : Entry
  pub appended : t ≡ record before { audit_logs = before.audit_logs ++ entry ∷ [] }
  pub entity_is : entry.entity ≡ entity
  pub entity_id_is : entry.entity_id ≡ entity_id
  pub action_is : entry.action ≡ action
  pub actor_is : entry.actor_id ≡ actor

module _ (c : Tables) (Q : Tables → Type 0) (entity entity_id action actor : String) where
  -- The entry that the services ask for; the database sets `ID` and `CreatedAt`.
  abbrev entry_asked : Entry
  entry_asked = record {
    id = "";
    entity = entity;
    entity_id = entity_id;
    action = action;
    actor_id = actor;
    created_at = 0;
  }

  row-Logged :
      (t : Tables) (a : Answer)
      → Q t
      → Logged Q entity entity_id action actor (record t {
        audit_logs = t.audit_logs ++ record entry_asked { id = a.uuid; created_at = a.now } ∷ [];
      })
  row-Logged t a q = record {
    before = t;
    holds = q;
    entry = _;
    appended = refl;
    entity_is = refl;
    entity_id_is = refl;
    action_is = refl;
    actor_is = refl;
  }

  insert_entry-Logged :
      (a : Answer) (t : Tables)
      → Q t
      → let out = insert_entry entry_asked a t in
        Replies (λ _. Logged Q entity entity_id action actor) out.0 out.1
  unfolding insert_entry
  insert_entry-Logged a t q = search (Replies-constraint, row-Logged t a q)

  pub Triple-write_entry :
      Triple
        (InTx c Q)
        (write_entry (postgres_store on_tx) entity entity_id action actor)
        (λ _. InTx c (Logged Q entity entity_id action actor))
        (Untouched c)
  unfolding write_entry postgres_store
  Triple-write_entry =
      Triple-on_error _ _ (Triple-on_error _ _ (Triple-run c _ insert_entry-Logged))

module _ (c : Tables) (Q : Tables → Type 0) (q : Q c) (ctx : Context) where
  abbrev pub Prepared : String × Store → World → Type 0
  Prepared p w =
      ((actor_id_from_context ctx ≡ some p.0) × (p.1 ≡ postgres_store on_tx)) × InTx c Q w

  with_actor-Triple :
      (o : Option String)
      → actor_id_from_context ctx ≡ o
      → Triple (Idle c) (with_actor o postgres_handle) Prepared (Idle c)
  unfolding with_actor begin_write postgres_handle
  with_actor-Triple none e = Triple-raise _ (λ s h. h)
  with_actor-Triple (some actor) e =
      Triple-bind _ _ (Triple-begin_tx c Q q) (λ _. Triple-pure _ (λ w h. ((e, refl), h)))

  pub Triple-prepare_write_tx :
      Triple (Idle c) (prepare_write_tx ctx postgres_handle) Prepared (Idle c)
  unfolding prepare_write_tx
  Triple-prepare_write_tx = with_actor-Triple (actor_id_from_context ctx) refl

-- The change and its entry: what the committed tables have on success, with the value `f a`.
pub record Recorded {A B : Type 0} (Q : A → Tables → Type 0) (f : A → B) (entity : String)
    (id : A → String) (action actor : String) (b : B) (t : Tables) : Type 0 where
  pub subject : A
  pub result_is : b ≡ f subject
  pub logged : Logged (Q subject) entity (id subject) action actor t

module _ {A B : Type 0} (c : Tables) (P : Tables → Type 0) (Q : A → Tables → Type 0) (f : A → B)
    (entity : String) (id : A → String) (action actor : String) where
  abbrev R : B → Tables → Type 0
  R = Recorded Q f entity id action actor

  -- What stands after the change.
  pub finish-Triple :
      (a : A)
      → Triple
          (InTx c (Q a))
          (do write_entry (postgres_store on_tx) entity (id a) action actor; commit; pure (f a))
          (Committed R)
          (Undecided c R)
  finish-Triple a =
      Triple-bind _ _
        (Triple_mono
          (λ _ w h. record {
            committed = h.committed;
            tables = h.tables;
            pending = h.pending;
            holds = record { subject = a; result_is = refl; logged = h.holds };
          })
          (λ w. inl) (Triple-write_entry c (Q a) entity (id a) action actor))
        (λ _. Triple-bind _ _ (Triple-commit c R (f a)) (λ _. Triple-pure (f a) (λ w h. h)))

  -- The audited block: all of it is committed, or nothing.
  pub Triple-audited :
      (change : Exec World A)
      → Triple (InTx c P) change (λ a. InTx c (Q a)) (Untouched c)
      → Triple
          (InTx c P)
          (with_rollback (do
            a ← change
            write_entry (postgres_store on_tx) entity (id a) action actor
            commit
            pure (f a)))
          (Committed R)
          (RolledBack c R)
  Triple-audited change t =
      Triple-with_rollback c R P _
        (Triple-bind _ _ (Triple_mono (λ a w h. h) (λ w. inl) t) finish-Triple)

-- `Recorded`, with the actor of the request's context.
pub record Attributed {A B : Type 0} (ctx : Context) (Q : A → Tables → Type 0) (f : A → B)
    (entity : String) (id : A → String) (action : String) (b : B) (t : Tables) : Type 0 where
  pub actor : String
  pub actor_is : actor_id_from_context ctx ≡ some actor
  pub recorded : Recorded Q f entity id action actor b t

module _ {A B : Type 0} (c : Tables) (P : Tables → Type 0) (Q : A → Tables → Type 0) (f : A → B)
    (entity : String) (id : A → String) (action : String) (ctx : Context) where
  pub RolledBack-Attributed :
      (actor : String)
      → actor_id_from_context ctx ≡ some actor
      → (w : World) → RolledBack c (Recorded Q f entity id action actor) w
      → RolledBack c (Attributed ctx Q f entity id action) w
  RolledBack-Attributed actor e w h = record {
    closed = h.closed;
    restored = elim h.restored [
      | inl same ↦ inl same
      | inr found ↦
          inr
            (LostReply-map (λ b t r. record { actor = actor; actor_is = e; recorded = r }) w found)
    ];
  }

  -- The audited block, for the actor and the audit store that `PrepareWriteTx` gave.
  pub Triple-Attributed :
      (actor : String) (store : Store)
      → actor_id_from_context ctx ≡ some actor
      → store ≡ postgres_store on_tx
      → (change : Exec World A) → Triple (InTx c P) change (λ a. InTx c (Q a)) (Untouched c)
      → Triple
          (InTx c P)
          (with_rollback
            (do a ← change; write_entry store entity (id a) action actor; commit; pure (f a)))
          (Committed (Attributed ctx Q f entity id action))
          (RolledBack c (Attributed ctx Q f entity id action))
  Triple-Attributed actor store e s change t = rw s (
      Triple_mono
        (λ b w h. record {
          closed = h.closed;
          written = record { actor = actor; actor_is = e; recorded = h.written };
        })
        (RolledBack-Attributed actor e) (Triple-audited c P Q f entity id action actor change t))

-- Before the transaction begins nothing has changed.
pub Idle-RolledBack :
    {A : Type 0} (c : Tables) (R : A → Tables → Type 0) (w : World) → Idle c w → RolledBack c R w
Idle-RolledBack c R w h = record { closed = h.pending; restored = inl h.committed }
