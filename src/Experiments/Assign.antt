-- ===== src/Experiments/Assign.antt =====
-- `assignVariantByWeight` and `hashToBucket` of internal/experiments/service.go.
use featureflag_api.Prelude.{String, ◌<>◌, List, [], ◌∷◌, if◌then◌else◌}
use featureflag_api.Prelude.Int.{ℤ, pos, int_add, int_lt}
use featureflag_api.Hash.{hash_to_bucket}
use featureflag_api.Schema.{Variant}

-- The loop, with the cumulative weight so far and the variant to fall back on, which is the last
-- one of the list when the loop ends.
unfoldable pub pick_variant : ℤ → ℤ → Variant → List Variant → Variant
pick_variant bucket cum last [] = last
pick_variant bucket cum last (v ∷ vs) =
    let rest = pick_variant bucket (int_add cum v.weight) v vs in
    if int_lt bucket (int_add cum v.weight) then v else rest

-- The variants are `v ∷ vs`: the caller has tested that there is one.
unfoldable pub assign_variant_by_weight : String → String → Variant → List Variant → Variant
unfolding pick_variant
assign_variant_by_weight user_id experiment_id v vs =
    pick_variant (pos (hash_to_bucket (user_id <> experiment_id))) (pos 0) v (v ∷ vs)
