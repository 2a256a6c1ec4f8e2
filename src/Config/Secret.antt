-- ===== src/Config/Secret.antt =====
-- Which secrets `GetJWTSecret` of internal/config/config.go accepts.
use featureflag_api.Prelude.{String, ◌=s◌, ◌≤◌, ◌≡◌, ◌↔◌, ◌∙◌, arith, length, bytes, eq_iff, ltb}
use featureflag_api.Prelude.{if◌then◌else◌, Bool-cases, inl, inr, ap, subst, sym}
use featureflag_api.Errors.{config}
use featureflag_api.Errors.Domain.{missing_jwt_secret, weak_jwt_secret}
use featureflag_api.Exec.{ok, err}
use featureflag_api.Config.{get_jwt_secret, min_jwt_secret_length}

accepted_iff :
    (s secret : String)
    → ((if s =s ""
          then err (config (missing_jwt_secret "JWT_SECRET"))
          else if ltb (length (bytes s)) min_jwt_secret_length
          then err (config (weak_jwt_secret min_jwt_secret_length (length (bytes s))))
          else ok s)
        ≡ ok secret)
      ↔ ((s ≡ secret) × (32 ≤ length (bytes secret)))
unfolding bytes
accepted_iff s secret = (
  λ h. elim (Bool-cases (s =s "")) [
    | inl empty ↦ cc (rw empty at h)
    | inr given ↦ long (rw given at h)
  ],
  λ h. elim (Bool-cases (s =s "")) [
    | inl empty ↦ absurd (short ((eq_iff s "").0 empty) h.0 h.1)
    | inr given ↦ rw given (ground (arith, ap (λ (t : String). length (bytes t)) h.0))
  ],
)
  where
    long :
        (if ltb (length (bytes s)) min_jwt_secret_length
            then err (config (weak_jwt_secret min_jwt_secret_length (length (bytes s))))
            else ok s)
          ≡ ok secret
        → (s ≡ secret) × (32 ≤ length (bytes secret))
    long h = elim (Bool-cases (ltb (length (bytes s)) min_jwt_secret_length)) [
      | inl low ↦ cc (rw low at h)
      | inr high ↦
          let e : s ≡ secret = cc (rw high at h) in
          (e, subst (λ t. 32 ≤ length (bytes t)) e (ground arith))
    ]

    short : s ≡ "" → s ≡ secret → 32 ≤ length (bytes secret) → ⊥
    short e f bound =
        let zero_length : 32 ≤ length (bytes "") =
          subst (λ t. 32 ≤ length (bytes t)) (sym f ∙ e) bound in
        absurd (omega arith)

-- `GetJWTSecret` returns a secret exactly when it is the value of JWT_SECRET and has at least 32
-- bytes.
pub get_jwt_secret_iff :
    (getenv : String → String) (secret : String)
    → (get_jwt_secret getenv ≡ ok secret)
      ↔ ((getenv "JWT_SECRET" ≡ secret) × (32 ≤ length (bytes secret)))
unfolding get_jwt_secret bytes
get_jwt_secret_iff getenv secret = accepted_iff (getenv "JWT_SECRET") secret
