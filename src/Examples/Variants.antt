-- ===== src/Examples/Variants.antt =====
-- The weights 60 and 40, and the bucket 93 of the user u1 in the experiment e1.
use mathlib.Core.List.{Memᴰ}
use featureflag_api.Prelude.{◌≡◌, refl, ◌↔◌, [], ◌∷◌, List, none, arith, bytes, All, ◌<◌, ◌<>◌}
use featureflag_api.Prelude.Int.{pos}
use featureflag_api.Hash.{hash_to_bucket, fnv32a}
use featureflag_api.Model.{ExperimentVariantInput}
use featureflag_api.Experiments.Weights.{validate_variant_weights}
use featureflag_api.Experiments.Assign.{assign_variant_by_weight}
use featureflag_api.Experiments.Distribution.{
  validate_variant_weights_iff, assign_variant_by_weight-interval,
  assign_variant_by_weight_weighted, weight_value, total, IsNonnegative,
}
use featureflag_api.Examples.{variant_a, variant_b}

abbrev inputs : List ExperimentVariantInput
inputs = record { name = "A"; weight = pos 60 } ∷ record { name = "B"; weight = pos 40 } ∷ []

validate_variant_weights_iff_example :
    (validate_variant_weights inputs ≡ none) ↔ (All IsNonnegative inputs × (total inputs ≡ 100))
validate_variant_weights_iff_example = validate_variant_weights_iff inputs (omega arith)

u1_bucket : hash_to_bucket ("u1" <> "e1") ≡ 93
unfolding hash_to_bucket fnv32a bytes
u1_bucket = refl

assign_variant_by_weight-interval_example :
    assign_variant_by_weight "u1" "e1" variant_a (variant_b ∷ []) ≡ variant_b
assign_variant_by_weight-interval_example =
    assign_variant_by_weight-interval "u1" "e1" variant_a (variant_b ∷ []) (variant_a ∷ []) []
      variant_b refl (refl, tt) refl (omega arith) (omega (arith, u1_bucket))
      (omega (arith, u1_bucket))

assign_variant_by_weight_weighted_example :
    let v = assign_variant_by_weight "u1" "e1" variant_a (variant_b ∷ []) in
    Memᴰ v (variant_a ∷ variant_b ∷ []) × (0 < weight_value v.weight)
assign_variant_by_weight_weighted_example =
    assign_variant_by_weight_weighted "u1" "e1" variant_a (variant_b ∷ []) (refl, (refl, tt))
      (omega arith) (omega arith)
