-- ===== src/Auth/RoleCheck.antt =====
-- `RequireRole` and the actor of the context.
use mathlib.Core.Option.{some-injective}
use mathlib.Core.List.{Memᴰ}
use featureflag_api.Prelude.{String, true, false, Option, none, some, List, [], ◌∷◌, ◌≡◌, refl}
use featureflag_api.Prelude.{
  ◌=s◌, eq_iff, ◌↔◌, arith, if◌then◌else◌, sym, subst, ap, ◌∙◌, Bool-cases, inl, inr,
}
use featureflag_api.Exec.{ok}
use featureflag_api.Auth.{
  Claims, Context, require_role, role_allowed, check_claims, from_context, with_actor_id,
  actor_id_from_context,
}

role_allowed-sound :
    (role : String) (allowed : List String) → role_allowed role allowed ≡ true → Memᴰ role allowed
unfolding role_allowed
role_allowed-sound role [] h = cc
role_allowed-sound role (r ∷ rest) h = elim (Bool-cases (role =s r)) [
  | inl same ↦ Memᴰ.head ((eq_iff role r).0 same)
  | inr differ ↦ Memᴰ.tail (role_allowed-sound role rest (rw differ at h))
]

role_allowed_complete :
    (role : String) (allowed : List String) → Memᴰ role allowed → role_allowed role allowed ≡ true
unfolding role_allowed
role_allowed_complete role [] m = elim m [ ]
role_allowed_complete role (r ∷ rest) (Memᴰ.head e) = rw ((eq_iff role r).1 e)
role_allowed_complete role (r ∷ rest) (Memᴰ.tail m) =
    ground (arith, role_allowed_complete role rest m)

pub role_allowed-false :
    (role : String) (allowed : List String)
    → ¬ (Memᴰ role allowed)
    → role_allowed role allowed ≡ false
role_allowed-false role allowed missing = elim (Bool-cases (role_allowed role allowed)) [
  | inl yes_in ↦ absurd (missing (role_allowed-sound role allowed yes_in))
  | inr not_in ↦ not_in
]

check_claims_iff :
    (allowed : List String) (o : Option Claims) (user : String)
    → (check_claims allowed o ≡ ok user)
      ↔ ((c : Claims) × (o ≡ some c) × Memᴰ c.role allowed × (c.sub ≡ user))
unfolding check_claims
check_claims_iff allowed none user = (λ h. cc, λ h. cc (h.1))
check_claims_iff allowed (some c) user = (
  λ h. elim (Bool-cases (role_allowed c.role allowed)) [
    | inl yes_in ↦ (c, refl, role_allowed-sound c.role allowed yes_in, ground arith)
    | inr not_in ↦ ground arith
  ],
  λ h.
      let e = some-injective c h.0 h.1 in
      let m = subst (λ (x : Claims). Memᴰ x.role allowed) (sym e) h.2 in
      rw (role_allowed_complete c.role allowed m) (ap (λ (x : Claims). ok x.sub) e ∙ ap ok h.3),
)

-- `RequireRole` returns a user ID exactly when the context has claims, their role is one of the
-- allowed roles, and the ID is their subject.
pub require_role_iff :
    (ctx : Context) (allowed : List String) (user : String)
    → (require_role ctx allowed ≡ ok user)
      ↔ ((c : Claims) × (from_context ctx ≡ some c) × Memᴰ c.role allowed × (c.sub ≡ user))
unfolding require_role
require_role_iff ctx allowed user = check_claims_iff allowed (from_context ctx) user

-- The actor that `WithActorID` stores is read back, unless it is the empty text.
pub actor_id_from_context-with_actor_id :
    (ctx : Context) (actor : String)
    → actor_id_from_context (with_actor_id ctx actor) ≡ (if actor =s "" then none else some actor)
unfolding actor_id_from_context with_actor_id
actor_id_from_context-with_actor_id ctx actor = refl
