-- ===== src/Experiments/Weights.antt =====
-- `validateVariantWeights` of internal/experiments/service.go.
use featureflag_api.Prelude.{Option, none, some, List, [], ◌∷◌, ◌++◌, if◌then◌else◌}
use featureflag_api.Prelude.Int.{ℤ, pos, is_negative, int_eq, int_add}
use featureflag_api.Errors.{GoError, experiments}
use featureflag_api.Errors.Domain.{invalid_weights}
use featureflag_api.Model.{ExperimentVariantInput}

abbrev pub weight_sum : ℤ
weight_sum = pos 100

unfoldable pub check_sum : ℤ → List ℤ → Option GoError
check_sum sum weights =
    if int_eq sum weight_sum then none else some (experiments (invalid_weights sum weights ""))

-- The loop over the variants, with `sum` and `weights` so far; `none` is a nil error.
unfoldable pub weights_loop : ℤ → List ℤ → List ExperimentVariantInput → Option GoError
unfolding check_sum
weights_loop sum weights [] = check_sum sum weights
weights_loop sum weights (v ∷ vs) =
    let rest = weights_loop (int_add sum v.weight) (weights ++ v.weight ∷ []) vs in
    if is_negative v.weight
    then some (experiments (invalid_weights sum (weights ++ v.weight ∷ []) "negative weight"))
    else rest

unfoldable pub validate_variant_weights : List ExperimentVariantInput → Option GoError
unfolding weights_loop
validate_variant_weights [] = some (experiments (invalid_weights (pos 0) [] "no variants provided"))
validate_variant_weights (v ∷ vs) = weights_loop (pos 0) [] (v ∷ vs)
