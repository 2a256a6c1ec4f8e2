-- ===== src/App/Reads.antt =====
-- The requests that no transaction serves: the queries, whose only change can be an assignment, and
-- the login.
use featureflag_api.Prelude.Int.{ℤ, is_negative}
use featureflag_api.Prelude.{◌=s◌, ap, String, none, some, Option, List, [], ◌∷◌, ◌≡◌}
use featureflag_api.Exec.Triple.{
  Triple-pure, Triple-raise, Triple-lift, Triple-bind, Triple-on_error, Triple-if,
}
use featureflag_api.Schema.{Tables, Flag, Rule, User, Experiment, Variant, Assignment}
use featureflag_api.Database.{Answer, on_db}
use featureflag_api.Database.Keeping.{constraint_keeps, Keeps, Keeps-run}
use featureflag_api.Model.{EvaluationContextInput}
use featureflag_api.Users.Service.{
  Bcrypt, check_user, check_password, login, get_user, get_user_by_email,
  new_service_with_audit as users_service, new_service as users_base,
}
use featureflag_api.Users.Postgres.{
  postgres_store as users_store, get_by_id, get_by_email, select_user,
}
use featureflag_api.Flags.Service.{
  new_service_with_audit as flags_service, new_service as flags_base,
}
use featureflag_api.Flags.Postgres.{
  postgres_store as flags_store, get_by_key_and_environment, select_flag, get_rules_by_flag_id,
  select_rules,
}
use featureflag_api.Flags.Evaluate.{AttributeCondition}
use featureflag_api.Flags.Delete.{evaluate_flag_in_environment, evaluate_found, evaluate_rules}
use featureflag_api.Experiments.Service.{
  new_service_with_audit as experiments_service, new_service as experiments_base, lookup_experiment,
  found, get_experiment, get_experiment_or_err, variant_by_id,
}
use featureflag_api.Experiments.Postgres.{
  postgres_store as experiments_store, get_experiment_by_key_and_environment, select_experiment,
  get_variants_by_experiment_id, select_variants, get_assignment as stored_assignment,
  select_assignment, upsert_assignment, upsert_row, upserted,
}
use featureflag_api.Experiments.GetAssignment.{
  get_assignment, assign_among, assign_or_reuse, assign_new,
}
use featureflag_api.Audit.{ListFilter}
use featureflag_api.Audit.Postgres.{
  postgres_store as audit_store, get_by_id as entry_by_id, list, list_checked, select_entry,
  select_entries,
}

-- The tables are those of before, but for experiment_assignments.
abbrev pub OnlyAssigned : Tables → Tables → Type 0
OnlyAssigned c t = t ≡ record c { experiment_assignments = t.experiment_assignments }

module _ (c : Tables) where
  get_by_email-Keeps :
      (email : String) → Keeps (OnlyAssigned c) (users_service.store.get_by_email email)
  unfolding users_service users_base users_store get_by_email select_user
  get_by_email-Keeps email = Triple-on_error _ _ (Keeps-run _ (λ a t h. h))

  get_by_id-Keeps : (id : String) → Keeps (OnlyAssigned c) (users_service.store.get_by_id id)
  unfolding users_service users_base users_store get_by_id select_user
  get_by_id-Keeps id = Triple-on_error _ _ (Keeps-run _ (λ a t h. h))

  pub get_user-Keeps : (id : String) → Keeps (OnlyAssigned c) (get_user users_service id)
  unfolding get_user
  get_user-Keeps id =
      Triple-bind _ _ (Triple-on_error _ _ (get_by_id-Keeps id)) (λ o. Triple-pure _ (λ w h. h))

  pub get_user_by_email-Keeps :
      (email : String) → Keeps (OnlyAssigned c) (get_user_by_email users_service email)
  unfolding get_user_by_email
  get_user_by_email-Keeps email =
      Triple-bind _ _ (Triple-on_error _ _ (get_by_email-Keeps email))
        (λ o. Triple-pure _ (λ w h. h))

  module _ (bcrypt : Bcrypt) where
    check_password-Keeps :
        (email password : String) (u : User) (o : Option String)
        → Keeps (OnlyAssigned c) (check_password bcrypt email password u o)
    unfolding check_password
    check_password-Keeps email password u none = Triple-raise _ (λ w h. h)
    check_password-Keeps email password u (some hash) =
        Triple-if (bcrypt.password_matches hash password) _ _ (λ _. Triple-pure _ (λ w h. h))
          (λ _. Triple-raise _ (λ w h. h))

    check_user-Keeps :
        (email password : String) (o : Option User)
        → Keeps (OnlyAssigned c) (check_user bcrypt email password o)
    unfolding check_user
    check_user-Keeps email password none = Triple-raise _ (λ w h. h)
    check_user-Keeps email password (some u) = check_password-Keeps email password u u.password_hash

    pub login-Keeps :
        (email password : String)
        → Keeps (OnlyAssigned c) (login bcrypt users_service email password)
    unfolding login
    login-Keeps email password =
        Triple-bind _ _ (Triple-on_error _ _ (get_by_email-Keeps email))
          (λ o. check_user-Keeps email password o)

  module _ (unmarshal : String → Option AttributeCondition) where
    evaluate_rules-Keeps :
        (flag : Flag) (x : EvaluationContextInput) (rules : List Rule)
        → Keeps (OnlyAssigned c) (evaluate_rules unmarshal flag x rules)
    unfolding evaluate_rules
    evaluate_rules-Keeps flag x [] = Triple-pure _ (λ w h. h)
    evaluate_rules-Keeps flag x (r ∷ rules) = Triple-lift _ (λ a e w h. h) (λ w h. h)

    evaluate_found-Keeps :
        (key env : String) (x : EvaluationContextInput) (o : Option Flag)
        → Keeps (OnlyAssigned c) (evaluate_found unmarshal flags_service key env x o)
    unfolding evaluate_found flags_service flags_base flags_store get_rules_by_flag_id select_rules
    evaluate_found-Keeps key env x none = Triple-pure _ (λ w h. h)
    evaluate_found-Keeps key env x (some flag) =
        Triple-if flag.enabled _ _
          (λ _.
            Triple-bind _ _ (Triple-on_error _ _ (Triple-on_error _ _ (Keeps-run _ (λ a t h. h))))
              (λ rules. evaluate_rules-Keeps flag x rules))
          (λ _. Triple-pure _ (λ w h. h))

    pub evaluate_flag-Keeps :
        (key env : String) (x : EvaluationContextInput)
        → Keeps (OnlyAssigned c) (evaluate_flag_in_environment unmarshal flags_service key env x)
    unfolding evaluate_flag_in_environment flags_service flags_base flags_store
        get_by_key_and_environment select_flag
    evaluate_flag-Keeps key env x =
        Triple-if (x.user_id =s "") _ _ (λ _. Triple-raise _ (λ w h. h))
          (λ _.
            Triple-bind _ _ (Triple-on_error _ _ (Triple-on_error _ _ (Keeps-run _ (λ a t h. h))))
              (λ o. evaluate_found-Keeps key env x o))

  found-Keeps :
      (key env : String) (o : Option Experiment) → Keeps (OnlyAssigned c) (found key env o)
  unfolding found
  found-Keeps key env none = Triple-raise _ (λ w h. h)
  found-Keeps key env (some x) = Triple-pure _ (λ w h. h)

  lookup_experiment-Keeps :
      (op key env : String)
      → Keeps (OnlyAssigned c) (lookup_experiment op experiments_service key env)
  unfolding lookup_experiment experiments_service experiments_base experiments_store
      get_experiment_by_key_and_environment select_experiment
  lookup_experiment-Keeps op key env =
      Triple-bind _ _ (Triple-on_error _ _ (Triple-on_error _ _ (Keeps-run _ (λ a t h. h))))
        (λ o. found-Keeps key env o)

  pub get_experiment-Keeps :
      (key env : String) → Keeps (OnlyAssigned c) (get_experiment experiments_service key env)
  unfolding get_experiment
  get_experiment-Keeps key env =
      Triple-bind _ _ (lookup_experiment-Keeps _ key env) (λ x. Triple-pure _ (λ w h. h))

  variant_by_id-Keeps :
      (id : String) (vs : List Variant) → Keeps (OnlyAssigned c) (variant_by_id id vs)
  unfolding variant_by_id
  variant_by_id-Keeps id [] = Triple-raise _ (λ w h. h)
  variant_by_id-Keeps id (v ∷ vs) =
      Triple-if (v.id =s id) _ _ (λ _. Triple-pure _ (λ w h. h)) (λ _. variant_by_id-Keeps id vs)

  upserts :
      (a : Assignment) (n : Answer) (t : Tables)
      → OnlyAssigned c t
      → OnlyAssigned c (upsert_row a n t).1
  unfolding upsert_row
  upserts a n t h = constraint_keeps (OnlyAssigned c) _ "23503" t _ h (
      ap (λ (u : Tables). record u { experiment_assignments = upserted a t.experiment_assignments })
        h)

  assign_or_reuse-Keeps :
      (user_id key env id : String) (v : Variant) (vs : List Variant) (o : Option Assignment)
      → Keeps (OnlyAssigned c) (assign_or_reuse experiments_service user_id key env id v vs o)
  unfolding assign_or_reuse assign_new experiments_service experiments_base experiments_store
      upsert_assignment
  assign_or_reuse-Keeps user_id key env id v vs (some a) = variant_by_id-Keeps a.variant_id (v ∷ vs)
  assign_or_reuse-Keeps user_id key env id v vs none =
      Triple-bind _ _ (Triple-on_error _ _ (Triple-on_error _ _ (Keeps-run _ (upserts _))))
        (λ _. Triple-pure _ (λ w h. h))

  assign_among-Keeps :
      (user_id key env id : String) (vs : List Variant)
      → Keeps (OnlyAssigned c) (assign_among experiments_service user_id key env id vs)
  unfolding assign_among experiments_service experiments_base experiments_store stored_assignment
      select_assignment
  assign_among-Keeps user_id key env id [] = Triple-raise _ (λ w h. h)
  assign_among-Keeps user_id key env id (v ∷ vs) =
      Triple-bind _ _ (Triple-on_error _ _ (Triple-on_error _ _ (Keeps-run _ (λ a t h. h))))
        (λ o. assign_or_reuse-Keeps user_id key env id v vs o)

  pub get_assignment-Keeps :
      (user_id key env : String)
      → Keeps (OnlyAssigned c) (get_assignment experiments_service user_id key env)
  unfolding get_assignment get_experiment_or_err experiments_service experiments_base
      experiments_store get_variants_by_experiment_id select_variants
  get_assignment-Keeps user_id key env =
      Triple-if (user_id =s "") _ _ (λ _. Triple-raise _ (λ w h. h))
        (λ _. Triple-bind _ _ (lookup_experiment-Keeps _ key env) (λ x.
          Triple-bind _ _ (Triple-on_error _ _ (Triple-on_error _ _ (Keeps-run _ (λ a t h. h))))
            (λ vs. assign_among-Keeps user_id key env x.id vs)))

  pub entry_by_id-Keeps : (id : String) → Keeps (OnlyAssigned c) ((audit_store on_db).get_by_id id)
  unfolding audit_store entry_by_id select_entry
  entry_by_id-Keeps id = Triple-on_error _ _ (Keeps-run _ (λ a t h. h))

  pub list-Keeps :
      (f : ListFilter) (limit offset : ℤ)
      → Keeps (OnlyAssigned c) ((audit_store on_db).list f limit offset)
  unfolding audit_store list list_checked select_entries
  list-Keeps f limit offset =
      Triple-if (is_negative offset) _ _ (λ _. Triple-raise _ (λ w h. h))
        (λ _. Triple-on_error _ _ (Keeps-run _ (λ a t h. h)))
