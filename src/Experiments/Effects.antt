-- ===== src/Experiments/Effects.antt =====
-- What createExperimentWithStore of internal/experiments/service.go does to the tables that a
-- transaction sees.
use mathlib.Core.List.{append_assoc, append-nil}
use featureflag_api.Prelude.{
  String, Bool, true, false, not, Option, none, some, List, [], ◌∷◌, ◌++◌,
}
use featureflag_api.Prelude.{◌≡◌, refl, ◌∙◌, ap, arith, ◌||◌, exists_by}
use featureflag_api.Errors.{GoError}
use featureflag_api.Exec.Triple.{
  Triple, Triple-pure, Triple-raise, Triple-bind, Triple-on_error, Triple_given, Triple_mono,
}
use featureflag_api.Schema.{Tables, Experiment, Variant}
use featureflag_api.Database.{Answer, on_tx}
use featureflag_api.Database.Atomic.{
  InTx, At, Untouched, Replies, Replies-constraint, Triple-run-At, Triple-from, InTx-mono,
}
use featureflag_api.Model.{CreateExperimentInput, ExperimentVariantInput}
use featureflag_api.Experiments.Weights.{validate_variant_weights}
use featureflag_api.Experiments.Postgres.{
  postgres_store, create_experiment, create_variant, insert_experiment, insert_variant, weight_fits,
  at_key, has_id, get_experiment_by_key_and_environment,
}
use featureflag_api.Experiments.Service.{
  check, unused, ensure_unique_experiment_with_store, new_variant, persist_variants_with_store,
  create_experiment_with_store,
}

-- The rows stored for the variants of an input, in its order: each has the name and the weight of
-- its variant, and the weight is one that the column takes.
abbrev pub AreStored : String → List ExperimentVariantInput → List Variant → Type 0
AreStored id [] [] = Unit
AreStored id (v ∷ vs) (row ∷ rows) =
    (row.experiment_id ≡ id)
    × (row.name ≡ v.name)
    × (row.weight ≡ v.weight)
    × (weight_fits row.weight ≡ true)
    × AreStored id vs rows
AreStored id _ _ = ⊥

abbrev with_variants : Tables → List Variant → Tables
with_variants t vs = record t { experiment_variants = vs }

-- Some rows are added at the end of experiment_variants.
pub record VariantsAdded (before : Tables) (base : List Variant) (id : String)
    (vs : List ExperimentVariantInput) (t : Tables) : Type 0 where
  pub stored : List Variant
  pub are_stored : AreStored id vs stored
  pub tables_are : t ≡ record before { experiment_variants = base ++ stored }

-- What `createExperimentWithStore` does: the weights were valid and the key free; there is one
-- experiment more, with a new ID and the variants of the input.
pub record CreatedFrom (before : Tables) (input : CreateExperimentInput) (row : Experiment)
    (t : Tables) : Type 0 where
  pub weights_are_valid : validate_variant_weights input.variants ≡ none
  pub key_is : row.key ≡ input.key
  pub environment_is : row.environment ≡ input.environment
  pub key_is_new : exists_by (at_key input.key input.environment) before.experiments ≡ false
  pub id_is_new : exists_by (has_id row.id) before.experiments ≡ false
  pub added :
      VariantsAdded
        (record before { experiments = before.experiments ++ row ∷ [] })
        before.experiment_variants
        row.id
        input.variants
        t

not-false : {b : Bool} → not b ≡ false → b ≡ true
not-false {b} h = ground arith

module _ (c before : Tables) (id : String) where
  record OneAdded (base : List Variant) (v : ExperimentVariantInput) (t : Tables) : Type 0 where
    row : Variant
    is_stored : AreStored id (v ∷ []) (row ∷ [])
    tables_are : t ≡ with_variants before (base ++ row ∷ [])

  row-OneAdded :
      (base : List Variant) (v : ExperimentVariantInput) (uuid : String)
      → not (weight_fits v.weight) ≡ false
      → OneAdded base v
          (with_variants before (base ++ record (new_variant id v) { id = uuid } ∷ []))
  row-OneAdded base v uuid fits = record {
    row = _;
    is_stored = (refl, refl, refl, not-false fits, tt);
    tables_are = refl;
  }

  insert_variant-OneAdded :
      (base : List Variant) (v : ExperimentVariantInput) (a : Answer)
      → let out = insert_variant (new_variant id v) a (with_variants before base) in
        Replies (λ _. OneAdded base v) out.0 out.1
  unfolding insert_variant
  insert_variant-OneAdded base v a = search (Replies-constraint, row-OneAdded base v a.uuid)

  VariantsAdded-cons :
      (base : List Variant) (v : ExperimentVariantInput) (row : Variant)
      (vs : List ExperimentVariantInput) (t : Tables)
      → AreStored id (v ∷ []) (row ∷ [])
      → VariantsAdded before (base ++ row ∷ []) id vs t
      → VariantsAdded before base id (v ∷ vs) t
  VariantsAdded-cons base v row vs t h d = record {
    stored = row ∷ d.stored;
    are_stored = (h.0, h.1, h.2, h.3, d.are_stored);
    tables_are = d.tables_are ∙ ap (with_variants before) (append_assoc base (row ∷ []) d.stored);
  }

  persist-VariantsAdded :
      (vs : List ExperimentVariantInput) (base : List Variant)
      → Triple
          (At c (with_variants before base))
          (persist_variants_with_store (postgres_store on_tx) id vs)
          (λ _. InTx c (VariantsAdded before base id vs))
          (Untouched c)
  unfolding persist_variants_with_store postgres_store create_variant
  persist-VariantsAdded [] base = Triple-pure tt (λ w.
      InTx-mono (λ t e. record { stored = []; are_stored = tt; tables_are = rw append-nil e }))
  persist-VariantsAdded (v ∷ vs) base =
      Triple-bind _ _
        (Triple-on_error _ _ (
          Triple-on_error _ _
            (Triple-run-At c _ (λ _. OneAdded base v) _ (insert_variant-OneAdded base v))))
        (λ _. Triple-from (λ t d. rw d.tables_are (
          Triple_mono (λ _ w. InTx-mono (λ u. VariantsAdded-cons base v d.row vs u d.is_stored))
            (λ w h. h) (persist-VariantsAdded vs (base ++ d.row ∷ [])))))

-- The row that `CreateExperiment` of the store adds.
record ExperimentAdded (before : Tables) (x row : Experiment) (t : Tables) : Type 0 where
  key_is : row.key ≡ x.key
  environment_is : row.environment ≡ x.environment
  key_is_new : exists_by (at_key x.key x.environment) before.experiments ≡ false
  id_is_new : exists_by (has_id row.id) before.experiments ≡ false
  tables_are : t ≡ record before { experiments = before.experiments ++ row ∷ [] }

row-ExperimentAdded :
    (t : Tables) (x : Experiment) (a : Answer)
    → (exists_by (at_key x.key x.environment) t.experiments
        || exists_by (has_id a.uuid) t.experiments)
      ≡ false
    → let row = record x { id = a.uuid } in
      ExperimentAdded t x row (record t { experiments = t.experiments ++ row ∷ [] })
row-ExperimentAdded t x a fresh = record {
  key_is = refl;
  environment_is = refl;
  key_is_new = ground (arith, fresh);
  id_is_new = ground (arith, fresh);
  tables_are = refl;
}

insert_experiment-ExperimentAdded :
    (t : Tables) (x : Experiment) (a : Answer)
    → Replies (ExperimentAdded t x) (insert_experiment x a t).0 (insert_experiment x a t).1
unfolding insert_experiment
insert_experiment-ExperimentAdded t x a = search (Replies-constraint, row-ExperimentAdded t x a)

module _ (c t : Tables) where
  create-ExperimentAdded :
      (x : Experiment)
      → Triple
          (At c t)
          (create_experiment on_tx x)
          (λ row. InTx c (ExperimentAdded t x row))
          (Untouched c)
  unfolding create_experiment
  create-ExperimentAdded x =
      Triple-on_error _ _
        (Triple-run-At c t (ExperimentAdded t x) _ (insert_experiment-ExperimentAdded t x))

  check-Triple :
      (o : Option GoError) → Triple (At c t) (check o) (λ _ w. (o ≡ none) × At c t w) (Untouched c)
  unfolding check
  check-Triple none = Triple-pure tt (λ w h. (refl, h))
  check-Triple (some e) = Triple-raise e (λ w h. h.committed)

  unused-At :
      (key env : String) (o : Option Experiment)
      → Triple (At c t) (unused key env o) (λ _. At c t) (Untouched c)
  unfolding unused
  unused-At key env none = Triple-pure tt (λ w h. h)
  unused-At key env (some x) = Triple-raise _ (λ w h. h.committed)

  ensure_unique-At :
      (key env : String)
      → Triple
          (At c t)
          (ensure_unique_experiment_with_store (postgres_store on_tx) key env)
          (λ _. At c t)
          (Untouched c)
  unfolding ensure_unique_experiment_with_store postgres_store get_experiment_by_key_and_environment
  ensure_unique-At key env =
      Triple-bind _ _
        (Triple-on_error _ _ (Triple-on_error _ _ (Triple-run-At c t (λ _ u. u ≡ t) _ (λ a. refl))))
        (unused-At key env)

  pub create-CreatedFrom :
      (input : CreateExperimentInput)
      → Triple
          (At c t)
          (create_experiment_with_store (postgres_store on_tx) input)
          (λ row. InTx c (CreatedFrom t input row))
          (Untouched c)
  unfolding create_experiment_with_store postgres_store
  create-CreatedFrom input =
      Triple-bind _ _ (check-Triple (validate_variant_weights input.variants)) (λ _.
        Triple_given (λ valid. Triple-bind _ _ (ensure_unique-At input.key input.environment) (λ _.
          Triple-bind _ _
            (Triple-on_error _ _ (
              create-ExperimentAdded
                (record { id = ""; key = input.key; environment = input.environment })))
            (λ row. Triple-from (λ u d. rw d.tables_are (
              Triple-bind _ _
                (persist-VariantsAdded c _ row.id input.variants t.experiment_variants)
                (λ _. Triple-pure row (λ w. InTx-mono (λ v h. record {
                  weights_are_valid = valid;
                  key_is = d.key_is;
                  environment_is = d.environment_is;
                  key_is_new = d.key_is_new;
                  id_is_new = d.id_is_new;
                  added = h;
                })))))))))
