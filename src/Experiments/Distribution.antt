-- ===== src/Experiments/Distribution.antt =====
-- The weights of an experiment and the buckets of its variants.
use featureflag_api.Prelude.{ℕ, ◌+◌, ◌≤◌, ◌<◌, ◌^◌, ◌≡◌, refl, ◌∙◌, ◌↔◌, sym, subst}
use featureflag_api.Prelude.{
  Option, none, some, List, [], ◌∷◌, ◌++◌, arith, All, false, ltb, String,
}
use featureflag_api.Prelude.{if◌then◌else◌, ◌<>◌, Bool-cases, inl, inr}
use mathlib.Core.List.{Memᴰ}
use featureflag_api.Hash.{hash_to_bucket, hash_to_bucket-lt}
use featureflag_api.Prelude.Int.{ℤ, pos, negsuc, int_add, int_lt, is_negative}
use featureflag_api.Errors.{GoError}
use featureflag_api.Schema.{Variant}
use featureflag_api.Model.{ExperimentVariantInput}
use featureflag_api.Experiments.Weights.{weights_loop, validate_variant_weights, check_sum}
use featureflag_api.Experiments.Assign.{pick_variant, assign_variant_by_weight}

-- Sums below 2 ^ 63 do not wrap around.
int_add-pos : (a b : ℕ) → a + b < 2 ^ 63 → int_add (pos a) (pos b) ≡ pos (a + b)
unfolding int_add
int_add-pos a b h = ground arith

-- The value of a weight; a negative one counts as 0.
abbrev pub weight_value : ℤ → ℕ
weight_value (pos n) = n
weight_value (negsuc n) = 0

abbrev pub total : List ExperimentVariantInput → ℕ
total [] = 0
total (v ∷ vs) = weight_value v.weight + total vs

abbrev pub IsNonnegative : ExperimentVariantInput → Type 0
IsNonnegative v = is_negative v.weight ≡ false

weights_step_iff :
    (x : ℤ) (e : GoError) (sum t : ℕ) (rest : ℤ → Option GoError) (P : Type 0)
    → sum + (weight_value x + t) < 2 ^ 63
    → ((n : ℕ) → n + t < 2 ^ 63 → (rest (pos n) ≡ none) ↔ (P × (n + t ≡ 100)))
    → ((if is_negative x then some e else rest (int_add (pos sum) x)) ≡ none)
      ↔ (((is_negative x ≡ false) × P) × (sum + (weight_value x + t) ≡ 100))
weights_step_iff (pos n) e sum t rest P h ih =
    let i = ih (sum + n) (omega arith) in
    rw (int_add-pos sum n (omega arith))
      (λ k. ((refl, (i.0 k).0), omega (arith, (i.0 k).1)), λ k. i.1 (k.0.1, omega arith))
weights_step_iff (negsuc n) e sum t rest P h ih = (λ k. cc, λ k. cc (k.0.0))

weights_loop_iff :
    (vs : List ExperimentVariantInput) (sum : ℕ) (weights : List ℤ)
    → sum + total vs < 2 ^ 63
    → (weights_loop (pos sum) weights vs ≡ none) ↔ (All IsNonnegative vs × (sum + total vs ≡ 100))
unfolding weights_loop check_sum
weights_loop_iff [] sum weights h = (λ k. (tt, ground arith), λ k. ground (arith, k.1))
weights_loop_iff (v ∷ vs) sum weights h =
    weights_step_iff v.weight _ sum (total vs) (λ s. weights_loop s (weights ++ v.weight ∷ []) vs) _
      h (λ n bound. weights_loop_iff vs n (weights ++ v.weight ∷ []) bound)

-- Variants whose weights add up to less than 2 ^ 63 are accepted exactly when no weight is negative
-- and the weights add up to 100.
pub validate_variant_weights_iff :
    (vs : List ExperimentVariantInput)
    → total vs < 2 ^ 63
    → (validate_variant_weights vs ≡ none) ↔ (All IsNonnegative vs × (total vs ≡ 100))
unfolding validate_variant_weights
validate_variant_weights_iff [] h = (λ k. cc, λ k. absurd (omega (arith, k.1)))
validate_variant_weights_iff (v ∷ vs) h =
    let i = weights_loop_iff (v ∷ vs) 0 [] (omega arith) in
    (λ k. ((i.0 k).0, omega (arith, (i.0 k).1)), λ k. i.1 (k.0, omega (arith, k.1)))

abbrev pub stored_total : List Variant → ℕ
stored_total [] = 0
stored_total (v ∷ vs) = weight_value v.weight + stored_total vs

abbrev pub HasWeight : Variant → Type 0
HasWeight v = is_negative v.weight ≡ false

pick_step :
    (x : ℤ) (bucket cum : ℕ) (v rest : Variant)
    → is_negative x ≡ false
    → cum + weight_value x < 2 ^ 63
    → (if int_lt (pos bucket) (int_add (pos cum) x) then v else rest)
      ≡ (if ltb bucket (cum + weight_value x) then v else rest)
pick_step (pos n) bucket cum v rest h l = rw (int_add-pos cum n l)
pick_step (negsuc n) bucket cum v rest h l = cc

sum_step :
    (x : ℤ) (cum : ℕ)
    → is_negative x ≡ false
    → cum + weight_value x < 2 ^ 63
    → int_add (pos cum) x ≡ pos (cum + weight_value x)
sum_step (pos n) cum h l = int_add-pos cum n l
sum_step (negsuc n) cum h l = cc

pick_variant-interval :
    (before after : List Variant) (v last : Variant) (bucket cum : ℕ)
    → All HasWeight before
    → HasWeight v
    → cum + stored_total before + weight_value v.weight < 2 ^ 63
    → cum + stored_total before ≤ bucket
    → bucket < cum + stored_total before + weight_value v.weight
    → pick_variant (pos bucket) (pos cum) last (before ++ v ∷ after) ≡ v
unfolding pick_variant
pick_variant-interval [] after v last bucket cum h k bound lo hi =
    pick_step v.weight bucket cum v _ k (omega arith) ∙ ground arith
pick_variant-interval (u ∷ before) after v last bucket cum h k bound lo hi =
    let rest =
      pick_variant-interval before after v u bucket (cum + weight_value u.weight) h.1 k
        (omega arith) (omega arith) (omega arith) in
    pick_step u.weight bucket cum u _ h.0 (omega arith)
    ∙ rw (sum_step u.weight cum h.0 (omega arith)) (ground (arith, rest))

-- Each variant gets as many of the 100 buckets as its weight says: when no weight before it is
-- negative, the users whose bucket lies from the sum of the weights before a variant up to that sum
-- and its own weight get this variant, if these sums are below 2 ^ 63.
pub assign_variant_by_weight-interval :
    (user experiment_id : String) (first : Variant) (rest before after : List Variant) (v : Variant)
    → first ∷ rest ≡ before ++ v ∷ after
    → All HasWeight before
    → HasWeight v
    → stored_total before + weight_value v.weight < 2 ^ 63
    → stored_total before ≤ hash_to_bucket (user <> experiment_id)
    → hash_to_bucket (user <> experiment_id) < stored_total before + weight_value v.weight
    → assign_variant_by_weight user experiment_id first rest ≡ v
unfolding assign_variant_by_weight
assign_variant_by_weight-interval user experiment_id first rest before after v e h k bound lo hi =
    subst (λ vs. pick_variant (pos (hash_to_bucket (user <> experiment_id))) (pos 0) first vs ≡ v)
      (sym e)
      (pick_variant-interval before after v first (hash_to_bucket (user <> experiment_id)) 0 h k
        (omega arith) (omega arith) (omega arith))

-- The loop ends at a variant whose interval has the bucket, so its weight is not 0.
pick_step_weighted :
    (x : ℤ) (bucket cum : ℕ) (v r : Variant) (vs : List Variant)
    → v.weight ≡ x
    → is_negative x ≡ false
    → cum + weight_value x < 2 ^ 63
    → cum ≤ bucket
    → (cum + weight_value x ≤ bucket → Memᴰ r vs × (0 < weight_value r.weight))
    → let picked = if int_lt (pos bucket) (int_add (pos cum) x) then v else r in
      Memᴰ picked (v ∷ vs) × (0 < weight_value picked.weight)
pick_step_weighted (pos n) bucket cum v r vs at h bound lo next =
    rw (int_add-pos cum n bound) (elim (Bool-cases (ltb bucket (cum + n))) [
      | inl inside ↦ rw inside (Memᴰ.head refl, rw at (ground (arith, inside, lo)))
      | inr beyond ↦
          let found = next (ground (arith, beyond)) in rw beyond (Memᴰ.tail found.0, found.1)
    ])
pick_step_weighted (negsuc n) bucket cum v r vs at h bound lo next = cc

pick_variant-weighted :
    (bucket cum : ℕ) (last : Variant) (vs : List Variant)
    → All HasWeight vs
    → cum + stored_total vs < 2 ^ 63
    → cum ≤ bucket
    → bucket < cum + stored_total vs
    → let picked = pick_variant (pos bucket) (pos cum) last vs in
      Memᴰ picked vs × (0 < weight_value picked.weight)
unfolding pick_variant
pick_variant-weighted bucket cum last [] h bound lo hi = absurd (omega (arith, lo, hi))
pick_variant-weighted bucket cum last (v ∷ vs) h bound lo hi =
    pick_step_weighted v.weight bucket cum v _ vs refl h.0 (omega arith) lo (λ beyond.
      rw (sum_step v.weight cum h.0 (omega arith)) (
        pick_variant-weighted bucket (cum + weight_value v.weight) v vs h.1 (omega arith) beyond
          (omega arith)))

-- When no weight is negative and the weights add up to at least 100, but less than 2 ^ 63, the
-- assigned variant is one of the experiment's variants, and not one of weight 0.
pub assign_variant_by_weight_weighted :
    (user experiment_id : String) (first : Variant) (rest : List Variant)
    → All HasWeight (first ∷ rest)
    → 100 ≤ stored_total (first ∷ rest)
    → stored_total (first ∷ rest) < 2 ^ 63
    → let v = assign_variant_by_weight user experiment_id first rest in
      Memᴰ v (first ∷ rest) × (0 < weight_value v.weight)
unfolding assign_variant_by_weight
assign_variant_by_weight_weighted user experiment_id first rest h enough bound =
    pick_variant-weighted (hash_to_bucket (user <> experiment_id)) 0 first (first ∷ rest) h
      (omega arith) (omega arith) (omega (arith, hash_to_bucket-lt (user <> experiment_id)))
