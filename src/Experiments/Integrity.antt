-- ===== src/Experiments/Integrity.antt =====
-- The variants in the tables and the weights of their experiments: what the creation of an experiment
-- keeps.
use mathlib.Core.List.Memᴰ
use mathlib.Core.List.{Memᴰ, append-nil}
use featureflag_api.Prelude.{
  String, Bool, true, false, none, List, [], ◌∷◌, ◌++◌, ◌=s◌, ◌≡◌, refl, sym,
}
use featureflag_api.Prelude.{ap, ◌∙◌, inl, inr, eq_iff, subst, Bool-cases, filter_by, arith}
use featureflag_api.Prelude.Rows.{filter_by-append, filter_by_none, filter_by_all, exists_by-false}
use featureflag_api.Prelude.Int.{ℤ, pos, negsuc, int_add, is_negative}
use featureflag_api.Schema.{Tables, Experiment, Variant}
use featureflag_api.Model.{CreateExperimentInput, ExperimentVariantInput}
use featureflag_api.Experiments.Weights.{weights_loop, validate_variant_weights, check_sum}
use featureflag_api.Experiments.Postgres.{has_id, weight_fits}
use featureflag_api.Experiments.Effects.{AreStored, CreatedFrom}

-- The sum of the weights from left to right, as Go's `int` adds them up.
abbrev pub weights_from : ℤ → List Variant → ℤ
weights_from sum [] = sum
weights_from sum (v ∷ vs) = weights_from (int_add sum v.weight) vs

abbrev pub of_experiment : String → Variant → Bool
of_experiment id v = v.experiment_id =s id

-- Each variant belongs to an experiment, its weight is one that the column takes, and the weights of
-- each experiment add up to 100.
pub record WeightsFit (t : Tables) : Type 0 where
  pub owned :
      (v : Variant)
      → Memᴰ v t.experiment_variants
      → (e : Experiment) × Memᴰ e t.experiments × (v.experiment_id ≡ e.id)
  pub fits : (v : Variant) → Memᴰ v t.experiment_variants → weight_fits v.weight ≡ true
  pub sums :
      (e : Experiment)
      → Memᴰ e t.experiments
      → weights_from (pos 0) (filter_by (of_experiment e.id) t.experiment_variants) ≡ pos 100

check_sum-none : (sum : ℤ) (weights : List ℤ) → check_sum sum weights ≡ none → sum ≡ pos 100
unfolding check_sum
check_sum-none (pos n) weights h = ap pos (ground (arith, h))
check_sum-none (negsuc n) weights h = cc

stored-weights :
    (id : String) (vs : List ExperimentVariantInput) (rows : List Variant) (sum : ℤ)
    (weights : List ℤ)
    → AreStored id vs rows
    → weights_loop sum weights vs ≡ none
    → weights_from sum rows ≡ pos 100
unfolding weights_loop
stored-weights id [] [] sum weights s h = check_sum-none sum weights h
stored-weights id [] (row ∷ rows) sum weights s h = elim s [ ]
stored-weights id (v ∷ vs) [] sum weights s h = elim s [ ]
stored-weights id (v ∷ vs) (row ∷ rows) sum weights s h = elim (Bool-cases (is_negative v.weight)) [
  | inl negative ↦ cc (rw negative at h)
  | inr fits ↦
      stored-weights id vs rows (int_add sum row.weight) (weights ++ v.weight ∷ []) s.4
        (rw s.2 (rw fits at h))
]

valid-weights :
    (id : String) (vs : List ExperimentVariantInput) (rows : List Variant)
    → AreStored id vs rows
    → validate_variant_weights vs ≡ none
    → weights_from (pos 0) rows ≡ pos 100
unfolding validate_variant_weights
valid-weights id [] rows s h = cc
valid-weights id (v ∷ vs) rows s h = stored-weights id (v ∷ vs) rows (pos 0) [] s h

stored-row :
    (id : String) (vs : List ExperimentVariantInput) (rows : List Variant) (row : Variant)
    → AreStored id vs rows
    → Memᴰ row rows
    → (row.experiment_id ≡ id) × (weight_fits row.weight ≡ true)
stored-row id [] [] row s m = elim m [ ]
stored-row id [] (x ∷ rows) row s m = elim s [ ]
stored-row id (v ∷ vs) [] row s m = elim s [ ]
stored-row id (v ∷ vs) (x ∷ rows) row s (Memᴰ.head e) = (
  ap (λ (y : Variant). y.experiment_id) e ∙ s.0,
  ap (λ (y : Variant). weight_fits y.weight) e ∙ s.3,
)
stored-row id (v ∷ vs) (x ∷ rows) row s (Memᴰ.tail m) = stored-row id vs rows row s.4 m

module _ (before : Tables) (input : CreateExperimentInput) (row : Experiment) (t : Tables)
    (h : WeightsFit before) (d : CreatedFrom before input row t) where
  abbrev stored : List Variant
  stored = d.added.stored

  -- What the variants of the experiment with this ID are now.
  abbrev variants_now : String → List Variant
  variants_now id = filter_by (of_experiment id) (before.experiment_variants ++ stored)

  is_old : (e : Experiment) → Memᴰ e before.experiments → e.id =s row.id ≡ false
  is_old e m = exists_by-false (has_id row.id) e before.experiments d.id_is_new m

  row_of :
      (v : Variant) → Memᴰ v stored → (v.experiment_id ≡ row.id) × (weight_fits v.weight ≡ true)
  row_of v m = stored-row row.id input.variants stored v d.added.are_stored m

  variants_now-old :
      (e : Experiment)
      → Memᴰ e before.experiments
      → variants_now e.id ≡ filter_by (of_experiment e.id) before.experiment_variants
  variants_now-old e m =
      filter_by-append (of_experiment e.id) before.experiment_variants stored
      ∙ rw
          (filter_by_none (of_experiment e.id) stored (λ v n.
            elim (Bool-cases (v.experiment_id =s e.id)) [
              | inl same ↦
                  let at = sym ((eq_iff v.experiment_id e.id).0 same) ∙ (row_of v n).0 in
                  cc (sym ((eq_iff e.id row.id).1 at) ∙ is_old e m)
              | inr differ ↦ differ
            ]))
          (append-nil _)

  variants_now-new : variants_now row.id ≡ stored
  variants_now-new =
      filter_by-append (of_experiment row.id) before.experiment_variants stored
      ∙ rw
          (
            filter_by_none (of_experiment row.id) before.experiment_variants (λ v n.
                let o = h.owned v n in
                subst (λ id. id =s row.id ≡ false) (sym o.2) (is_old o.0 o.1)),
            filter_by_all (of_experiment row.id) stored
                (λ v n. (eq_iff v.experiment_id row.id).1 (row_of v n).0),
          )
          refl

  pub CreatedFrom-WeightsFit : WeightsFit t
  CreatedFrom-WeightsFit = subst WeightsFit (sym d.added.tables_are) (record {
    owned = λ v m. elim (Memᴰ.append_cases before.experiment_variants m) [
      | inl old ↦ let o = h.owned v old in (o.0, Memᴰ.append_left (row ∷ []) o.1, o.2)
      | inr new ↦ (row, Memᴰ.append_right before.experiments (Memᴰ.head refl), (row_of v new).0)
    ];
    fits = λ v m. elim (Memᴰ.append_cases before.experiment_variants m) [
      | inl old ↦ h.fits v old
      | inr new ↦ (row_of v new).1
    ];
    sums = λ e m. elim (Memᴰ.append_cases before.experiments m) [
      | inl old ↦ rw (variants_now-old e old) (h.sums e old)
      | inr new ↦
          let same = ap (λ (x : Experiment). x.id) (Memᴰ.eq_of_singleton new) in
          rw (same, variants_now-new)
            (valid-weights row.id input.variants stored d.added.are_stored d.weights_are_valid)
    ];
  })
