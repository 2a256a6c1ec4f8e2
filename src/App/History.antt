-- ===== src/App/History.antt =====
-- The requests that the resolver of NewApp serves, one after another: who stands behind what has
-- changed.
pub mod Mutations
pub mod Queries
pub mod Sequences
use mathlib.Core.List.{Memᴰ}
use featureflag_api.Prelude.{
  String, Option, none, some, List, [], ◌∷◌, ◌++◌, ◌=s◌, ◌≡◌, refl, sym, ap,
}
use featureflag_api.Prelude.{◌∙◌, ◌⊎◌, inl, inr, Bool-cases, subst}
use featureflag_api.Exec.{Result, ok, err, Exec, lift, pure, ◌>>=◌}
use featureflag_api.Exec.Triple.{
  After, Triple, Triple-pure, Triple-raise, Triple-lift, Triple-bind, Triple-on_error, Triple-if,
}
use featureflag_api.Auth.{Context, Claims, require_role, from_context, with_actor_id}
use featureflag_api.Auth.{actor_id_from_context}
use featureflag_api.Auth.RoleCheck.{require_role_iff, actor_id_from_context-with_actor_id}
use featureflag_api.Schema.{Tables, Entry}
use featureflag_api.Database.{World}
use featureflag_api.Database.Atomic.{Committed, RolledBack, Idle}
use featureflag_api.Database.Keeping.{Keeps, Stands}
use featureflag_api.Audit.Recorded.{Attributed}
use featureflag_api.App.{new_app_resolver}
use featureflag_api.App.Reads.{OnlyAssigned}
use featureflag_api.Transport.{Libraries, Resolver}
use featureflag_api.Transport.Mutations.{as_actor}
use featureflag_api.Transport.Requests.{Request, resolve, roles_of}

-- A caller whose claims have the subject, and a role that the request needs.
pub record Allowed (ctx : Context) (q : Request) (actor : String) : Type 0 where
  pub claims : Claims
  pub present : from_context ctx ≡ some claims
  pub subject_is : claims.sub ≡ actor
  pub roles : List String
  pub needed : roles_of q ≡ some roles
  pub has_role : Memᴰ claims.role roles

-- What a request leaves: nothing but an assignment has changed, or one audit entry more names a
-- caller who was allowed to make it.
pub data Served (ctx : Context) (q : Request) (c t : Tables) : Type 0 where
  unlogged : OnlyAssigned c t → Served ctx q c t
  logged :
      (e : Entry)
      → t.audit_logs ≡ c.audit_logs ++ e ∷ []
      → Allowed ctx q e.actor_id
      → Served ctx q c t

acting_as :
    (ctx : Context) (user actor : String)
    → actor_id_from_context (with_actor_id ctx user) ≡ some actor
    → actor ≡ user
acting_as ctx user actor e = elim (Bool-cases (user =s "")) [
  | inl empty ↦ cc (rw empty at (sym (actor_id_from_context-with_actor_id ctx user) ∙ e))
  | inr named ↦ cc (rw named at (sym (actor_id_from_context-with_actor_id ctx user) ∙ e))
]

-- The change before the entry leaves the audit log.
abbrev pub LeavesLog : {A : Type 0} → Tables → (A → Tables → Type 0) → Type 0
LeavesLog c Q = (a : _) (t : Tables) → Q a t → t.audit_logs ≡ c.audit_logs

module _ (ctx : Context) (q : Request) (c : Tables) where
  abbrev pub Settled : World → Type 0
  Settled = Stands (Served ctx q c)

  pub only_assigned : {t : Tables} → t ≡ c → OnlyAssigned c t
  only_assigned e = subst (OnlyAssigned c) (sym e) refl

  pub Stands-Settled : (w : World) → Stands (OnlyAssigned c) w → Settled w
  Stands-Settled w h = (h.0, Served.unlogged h.1)

  module _ {A B : Type 0} (Q : A → Tables → Type 0) (f : A → B) (entity : String) (id : A → String)
      (action : String) (user : String) (allowed : Allowed ctx q user)
      (leaves : LeavesLog c Q) where
    abbrev R : B → Tables → Type 0
    R = Attributed (with_actor_id ctx user) Q f entity id action

    Attributed-Served : (b : B) (t : Tables) → R b t → Served ctx q c t
    Attributed-Served b t r =
        let l = r.recorded.logged in
        Served.logged l.entry
          (ap (λ u. u.audit_logs) l.appended
            ∙ ap (λ es. es ++ l.entry ∷ []) (leaves r.recorded.subject l.before l.holds))
          (subst (Allowed ctx q) (sym (l.actor_is ∙ acting_as ctx user r.actor r.actor_is)) allowed)

    pub audited-Settled :
        (r : Result B) (w : World) → After (Committed R) (RolledBack c R) r w → Settled w
    audited-Settled (ok b) w h = (h.closed, Attributed-Served b w.committed h.written)
    audited-Settled (err e) w h = (
      h.closed,
      elim h.restored [
        | inl same ↦ Served.unlogged (only_assigned same)
        | inr found ↦ Attributed-Served found.value w.committed found.written
      ],
    )

  role-Allowed :
      (roles : List String) (user : String)
      → roles_of q ≡ some roles
      → require_role ctx roles ≡ ok user
      → Allowed ctx q user
  role-Allowed roles user needed passed =
      let r = (require_role_iff ctx roles user).0 passed in
      record {
        claims = r.0;
        present = r.1;
        subject_is = r.3;
        roles = roles;
        needed = needed;
        has_role = r.2;
      }

  acting_by :
      {A : Type 0} (S : World → Type 0) (roles : List String) (act : Context → Exec World A)
      (w : World) (checked : Result String)
      → require_role ctx roles ≡ checked
      → roles_of q ≡ some roles
      → S w
      → ((user : String) → Allowed ctx q user → S (act (with_actor_id ctx user) w).1)
      → S ((as_actor roles ctx >>= act) w).1
  unfolding as_actor
  acting_by S roles act w (err e) checked needed now h = rw checked now
  acting_by S roles act w (ok user) checked needed now h =
      rw checked (h user (role-Allowed roles user needed checked))

  -- A resolver that acts for the user of the claims: what holds after it.
  pub acting :
      {A : Type 0} (S : World → Type 0) (roles : List String) (act : Context → Exec World A)
      (w : World)
      → roles_of q ≡ some roles
      → S w
      → ((user : String) → Allowed ctx q user → S (act (with_actor_id ctx user) w).1)
      → S ((as_actor roles ctx >>= act) w).1
  acting S roles act w = acting_by S roles act w (require_role ctx roles) refl

  pub acting-Settled :
      {A : Type 0} (roles : List String) (act : Context → Exec World A) (w : World)
      → roles_of q ≡ some roles
      → w.pending ≡ none
      → w.committed ≡ c
      → ((user : String) → Allowed ctx q user → Settled (act (with_actor_id ctx user) w).1)
      → Settled ((as_actor roles ctx >>= act) w).1
  acting-Settled roles act w needed idle at =
      acting Settled roles act w needed (idle, Served.unlogged (only_assigned at))
