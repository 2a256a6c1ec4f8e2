-- ===== src/App/Invariants/Sequences.antt =====
-- The rule for invariants of the tables: what every change of the services keeps holds after any
-- requests.
use featureflag_api.App.Invariants.{IsKept}
use featureflag_api.Prelude.{String, Bool, true, false, none, List, [], ◌∷◌, ◌++◌, ◌≡◌, refl, sym}
use featureflag_api.Prelude.{subst, inl, inr}
use featureflag_api.Exec.{Result, ok, err}
use featureflag_api.Exec.Triple.{After}
use featureflag_api.Auth.{Context, with_actor_id}
use featureflag_api.Audit.{
  entity_feature_flag, entity_user, entity_experiment, action_create, action_update, action_delete,
}
use featureflag_api.Audit.Recorded.{Attributed}
use featureflag_api.Schema.{Tables}
use featureflag_api.Database.{World}
use featureflag_api.Database.Atomic.{Committed, RolledBack}
use featureflag_api.Database.Keeping.{Stands}
use featureflag_api.Model.{
  CreateFlagInput, UpdateFlagInput, CreateUserInput, UpdateUserInput, CreateExperimentInput,
}
use featureflag_api.Flags.Rules.{flag_to_model}
use featureflag_api.Flags.Changes as FlagsChanges
use featureflag_api.Flags.FailClosed.{
  create_flag_fail_closed, update_flag_fail_closed, delete_flag_fail_closed,
}
use featureflag_api.Users.Service.{user_to_model}
use featureflag_api.Users.Effects as UsersEffects
use featureflag_api.Users.Deletion as UsersDeletion
use featureflag_api.Users.Deletion.{Finished, UserDeleted, delete_user_fail_closed}
use featureflag_api.Users.FailClosed.{create_user_fail_closed, update_user_fail_closed}
use featureflag_api.Experiments.Service.{experiment_to_model}
use featureflag_api.Experiments.Effects as ExperimentsEffects
use featureflag_api.Experiments.FailClosed.{create_experiment_fail_closed}
use featureflag_api.App.{new_app_resolver}
use featureflag_api.App.Reads.{OnlyAssigned}
use featureflag_api.App.History.{acting}
use featureflag_api.App.History.Sequences.{Call, after, serve_all, resolve-Settled}
use featureflag_api.App.History.Queries.{
  evaluate_flag-Stands, user-Stands, user_by_email-Stands, experiment-Stands, get_assignment-Stands,
  audit_log-Stands, audit_logs-Stands, login-Stands,
}
use featureflag_api.Transport.{Libraries, experiments_service}
use featureflag_api.Transport.Mutations.{
  create_flag, update_flag, delete_flag, create_user, update_user, delete_user, create_experiment,
  create_experiment_with,
}
use featureflag_api.Transport.Requests.{Request, resolve}

module _ (lib : Libraries) (secret : String) (P : Tables → Type 0)
    (kept : IsKept lib.bcrypt P) where
  abbrev Holds : World → Type 0
  Holds v = P v.committed

  module _ {A B : Type 0} (c : Tables) (Q : A → Tables → Type 0) (f : A → B) (entity : String)
      (id : A → String) (action : String) (ctx : Context) (now : P c)
      (change : (a : A) (t : Tables) → Q a t → P t) where
    abbrev R : B → Tables → Type 0
    R = Attributed ctx Q f entity id action

    logged_preserved : (b : B) (t : Tables) → R b t → P t
    logged_preserved b t r =
        let l = r.recorded.logged in
        subst P (sym l.appended) (
          kept.log_grows l.before (l.before.audit_logs ++ l.entry ∷ [])
            (change r.recorded.subject l.before l.holds))

    audited_preserved :
        (r : Result B) (w : World) → After (Committed R) (RolledBack c R) r w → Holds w
    audited_preserved (ok b) w h = logged_preserved b w.committed h.written
    audited_preserved (err e) w h = elim h.restored [
      | inl same ↦ subst P (sym same) now
      | inr found ↦ logged_preserved found.value w.committed found.written
    ]

  read_preserved : (w v : World) → P w.committed → Stands (OnlyAssigned w.committed) v → Holds v
  read_preserved w v now h =
      subst P (sym h.1) (kept.assigned w.committed v.committed.experiment_assignments now)

  deletion_preserved :
      (c : Tables) (id : String) (ctx : Context) (r : Result Bool) (w : World)
      → P c
      → After (Finished c ctx id) (RolledBack c (UserDeleted c ctx id)) r w
      → Holds w
  deletion_preserved c id ctx (ok false) w now h = subst P (sym h.committed) now
  deletion_preserved c id ctx (ok true) w now h =
      audited_preserved {A = Unit {0}} c (λ _. UsersDeletion.DeletedFrom c id) (λ _. true)
        entity_user (λ _. id) action_delete ctx now (λ _ t. kept.user_deleted c id t now) (ok true)
        w h
  deletion_preserved c id ctx (err e) w now h =
      audited_preserved {A = Unit {0}} c (λ _. UsersDeletion.DeletedFrom c id) (λ _. true)
        entity_user (λ _. id) action_delete ctx now (λ _ t. kept.user_deleted c id t now) (err e) w
        h

  module _ (ctx : Context) (w : World) (idle : w.pending ≡ none) (now : P w.committed) where
    create_flag_preserved :
        (input : CreateFlagInput) → Holds (after lib secret ctx (Request.create_flag input) w)
    unfolding resolve create_flag new_app_resolver
    create_flag_preserved input =
        acting ctx (Request.create_flag input) w.committed Holds _ _ w refl now (λ user _.
          audited_preserved w.committed (FlagsChanges.CreatedFrom w.committed input) flag_to_model
            entity_feature_flag (λ x. x.id) action_create (with_actor_id ctx user) now
            (λ row t. kept.flag_created w.committed input row t now) _ _
            (create_flag_fail_closed w (with_actor_id ctx user) input idle))

    update_flag_preserved :
        (input : UpdateFlagInput) → Holds (after lib secret ctx (Request.update_flag input) w)
    unfolding resolve update_flag new_app_resolver
    update_flag_preserved input =
        acting ctx (Request.update_flag input) w.committed Holds _ _ w refl now (λ user _.
          audited_preserved w.committed (FlagsChanges.UpdatedFrom w.committed input) flag_to_model
            entity_feature_flag (λ x. x.id) action_update (with_actor_id ctx user) now
            (λ row t. kept.flag_updated w.committed input row t now) _ _
            (update_flag_fail_closed w (with_actor_id ctx user) input idle))

    delete_flag_preserved :
        (key env : String) → Holds (after lib secret ctx (Request.delete_flag key env) w)
    unfolding resolve delete_flag new_app_resolver
    delete_flag_preserved key env =
        acting ctx (Request.delete_flag key env) w.committed Holds _ _ w refl now (λ user _.
          audited_preserved w.committed (FlagsChanges.DeletedFrom w.committed key env) (λ _. true)
            entity_feature_flag (λ x. x) action_delete (with_actor_id ctx user) now
            (λ id t. kept.flag_deleted w.committed key env id t now) _ _
            (delete_flag_fail_closed w (with_actor_id ctx user) key env idle))

    create_user_preserved :
        (input : CreateUserInput) → Holds (after lib secret ctx (Request.create_user input) w)
    unfolding resolve create_user new_app_resolver
    create_user_preserved input =
        acting ctx (Request.create_user input) w.committed Holds _ _ w refl now (λ user _.
          audited_preserved w.committed (UsersEffects.CreatedFrom lib.bcrypt w.committed input)
            user_to_model entity_user (λ x. x.id) action_create (with_actor_id ctx user) now
            (λ row t. kept.user_created w.committed input row t now) _ _
            (create_user_fail_closed lib.bcrypt w (with_actor_id ctx user) input idle))

    update_user_preserved :
        (input : UpdateUserInput) → Holds (after lib secret ctx (Request.update_user input) w)
    unfolding resolve update_user new_app_resolver
    update_user_preserved input =
        acting ctx (Request.update_user input) w.committed Holds _ _ w refl now (λ user _.
          audited_preserved w.committed (UsersEffects.UpdatedFrom lib.bcrypt w.committed input)
            user_to_model entity_user (λ x. x.id) action_update (with_actor_id ctx user) now
            (λ row t. kept.user_updated w.committed input row t now) _ _
            (update_user_fail_closed lib.bcrypt w (with_actor_id ctx user) input idle))

    create_experiment_preserved :
        (input : CreateExperimentInput)
        → Holds (after lib secret ctx (Request.create_experiment input) w)
    unfolding resolve create_experiment create_experiment_with experiments_service new_app_resolver
    create_experiment_preserved input =
        acting ctx (Request.create_experiment input) w.committed Holds _ _ w refl now (λ user _.
          audited_preserved w.committed (ExperimentsEffects.CreatedFrom w.committed input)
            experiment_to_model entity_experiment (λ x. x.id) action_create (with_actor_id ctx user)
            now (λ row t. kept.experiment_created w.committed input row t now) _ _
            (create_experiment_fail_closed w (with_actor_id ctx user) input idle))

    delete_user_preserved : (id : String) → Holds (after lib secret ctx (Request.delete_user id) w)
    unfolding resolve delete_user new_app_resolver
    delete_user_preserved id =
        acting ctx (Request.delete_user id) w.committed Holds _ _ w refl now (λ user _.
          deletion_preserved w.committed id (with_actor_id ctx user) _ _ now
            (delete_user_fail_closed w (with_actor_id ctx user) id idle))

    after_preserved : (q : Request) → Holds (after lib secret ctx q w)
    after_preserved (Request.create_flag input) = create_flag_preserved input
    after_preserved (Request.update_flag input) = update_flag_preserved input
    after_preserved (Request.delete_flag key env) = delete_flag_preserved key env
    after_preserved (Request.create_user input) = create_user_preserved input
    after_preserved (Request.update_user input) = update_user_preserved input
    after_preserved (Request.delete_user id) = delete_user_preserved id
    after_preserved (Request.create_experiment input) = create_experiment_preserved input
    after_preserved (Request.login input) =
        read_preserved w (after lib secret ctx (Request.login input) w) now
          (login-Stands lib secret ctx w idle input)
    after_preserved (Request.evaluate_flag key x env) =
        read_preserved w (after lib secret ctx (Request.evaluate_flag key x env) w) now
          (evaluate_flag-Stands lib secret ctx w idle key x env)
    after_preserved (Request.user id) =
        read_preserved w (after lib secret ctx (Request.user id) w) now
          (user-Stands lib secret ctx w idle id)
    after_preserved (Request.user_by_email email) =
        read_preserved w (after lib secret ctx (Request.user_by_email email) w) now
          (user_by_email-Stands lib secret ctx w idle email)
    after_preserved (Request.experiment key env) =
        read_preserved w (after lib secret ctx (Request.experiment key env) w) now
          (experiment-Stands lib secret ctx w idle key env)
    after_preserved (Request.get_assignment user_id key env) =
        read_preserved w (after lib secret ctx (Request.get_assignment user_id key env) w) now
          (get_assignment-Stands lib secret ctx w idle user_id key env)
    after_preserved (Request.audit_log id) =
        read_preserved w (after lib secret ctx (Request.audit_log id) w) now
          (audit_log-Stands lib secret ctx w idle id)
    after_preserved (Request.audit_logs filter limit offset) =
        read_preserved w (after lib secret ctx (Request.audit_logs filter limit offset) w) now
          (audit_logs-Stands lib secret ctx w idle filter limit offset)

  -- What the changes of the services keep holds after any requests.
  pub serve_all_preserved :
      (calls : List Call) (w : World)
      → w.pending ≡ none
      → P w.committed
      → P (serve_all lib secret calls w).committed
  unfolding serve_all
  serve_all_preserved [] w idle now = now
  serve_all_preserved (call ∷ calls) w idle now =
      serve_all_preserved calls (after lib secret call.0 call.1 w)
        (resolve-Settled lib secret call.0 call.1 w idle).0
        (after_preserved call.0 w idle now call.1)
