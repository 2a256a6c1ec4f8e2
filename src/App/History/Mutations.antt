-- ===== src/App/History/Mutations.antt =====
-- The seven mutations of the resolver, each as one step of the history.
use featureflag_api.Prelude.{String, Bool, true, false, none, ◌≡◌, refl, ap}
use featureflag_api.Exec.{Result, ok, err}
use featureflag_api.Exec.Triple.{After}
use featureflag_api.Audit.{
  entity_feature_flag, entity_user, entity_experiment, action_create, action_update, action_delete,
}
use featureflag_api.Auth.{Context, with_actor_id}
use featureflag_api.Schema.{Tables}
use featureflag_api.Database.{World}
use featureflag_api.Database.Atomic.{RolledBack}
use featureflag_api.Model.{
  CreateFlagInput, UpdateFlagInput, CreateUserInput, UpdateUserInput, CreateExperimentInput,
}
use featureflag_api.Flags.Rules.{flag_to_model}
use featureflag_api.Flags.Changes as FlagsChanges
use featureflag_api.Flags.Scope.{
  CreatedFrom-OnlyFlags, UpdatedFrom-OnlyFlags, DeletedFrom-OnlyFlags,
}
use featureflag_api.Flags.FailClosed.{
  create_flag_fail_closed, update_flag_fail_closed, delete_flag_fail_closed,
}
use featureflag_api.Users.Service.{Bcrypt, user_to_model}
use featureflag_api.Users.Effects as UsersEffects
use featureflag_api.Users.Deletion as UsersDeletion
use featureflag_api.Users.Deletion.{Finished, UserDeleted, delete_user_fail_closed}
use featureflag_api.Users.FailClosed.{create_user_fail_closed, update_user_fail_closed}
use featureflag_api.Experiments.Service.{experiment_to_model}
use featureflag_api.Experiments.Effects as ExperimentsEffects
use featureflag_api.Experiments.FailClosed.{create_experiment_fail_closed}
use featureflag_api.App.{new_app_resolver}
use featureflag_api.App.History.{
  Settled, Allowed, LeavesLog, audited-Settled, acting-Settled, Served, only_assigned,
}
use featureflag_api.Transport.{Libraries, experiments_service}
use featureflag_api.Transport.Mutations.{
  create_flag, update_flag, delete_flag, create_user, update_user, create_experiment,
  create_experiment_with,
}
use featureflag_api.Transport.Mutations as TransportMutations
use featureflag_api.Transport.Requests.{Request, resolve}

flag_created_leaves :
    (c : Tables) (input : CreateFlagInput) → LeavesLog c (FlagsChanges.CreatedFrom c input)
flag_created_leaves c input row t h =
    ap (λ (u : Tables). u.audit_logs) (CreatedFrom-OnlyFlags c input row t h)

flag_updated_leaves :
    (c : Tables) (input : UpdateFlagInput) → LeavesLog c (FlagsChanges.UpdatedFrom c input)
flag_updated_leaves c input row t h =
    ap (λ (u : Tables). u.audit_logs) (UpdatedFrom-OnlyFlags c input row t h)

flag_deleted_leaves :
    (c : Tables) (key env : String) → LeavesLog c (FlagsChanges.DeletedFrom c key env)
flag_deleted_leaves c key env id t h =
    ap (λ (u : Tables). u.audit_logs) (DeletedFrom-OnlyFlags c key env id t h)

user_created_leaves :
    (bcrypt : Bcrypt) (c : Tables) (input : CreateUserInput)
    → LeavesLog c (UsersEffects.CreatedFrom bcrypt c input)
user_created_leaves bcrypt c input row t h = ap (λ u. u.audit_logs) h.stored.tables_are

user_updated_leaves :
    (bcrypt : Bcrypt) (c : Tables) (input : UpdateUserInput)
    → LeavesLog c (UsersEffects.UpdatedFrom bcrypt c input)
user_updated_leaves bcrypt c input row t h = ap (λ u. u.audit_logs) h.tables_are

user_deleted_leaves :
    (c : Tables) (id : String) → LeavesLog {A = Unit {0}} c (λ _. UsersDeletion.DeletedFrom c id)
user_deleted_leaves c id a t h = ap (λ u. u.audit_logs) h.tables_are

experiment_created_leaves :
    (c : Tables) (input : CreateExperimentInput)
    → LeavesLog c (ExperimentsEffects.CreatedFrom c input)
experiment_created_leaves c input row t h = ap (λ u. u.audit_logs) h.added.tables_are

-- A deletion that finds no user leaves everything.
deletion-Settled :
    (ctx : Context) (id user : String) (c : Tables) (r : Result Bool) (w : World)
    → Allowed ctx (Request.delete_user id) user
    → After
        (Finished c (with_actor_id ctx user) id)
        (RolledBack c (UserDeleted c (with_actor_id ctx user) id))
        r
        w
    → Settled ctx (Request.delete_user id) c w
deletion-Settled ctx id user c (ok false) w allowed h =
    (h.pending, Served.unlogged (only_assigned ctx (Request.delete_user id) c h.committed))
deletion-Settled ctx id user c (ok true) w allowed h =
    audited-Settled ctx (Request.delete_user id) c {A = Unit {0}}
      (λ _. UsersDeletion.DeletedFrom c id) (λ _. true) entity_user (λ _. id) action_delete user
      allowed (user_deleted_leaves c id) (ok true) w h
deletion-Settled ctx id user c (err e) w allowed h =
    audited-Settled ctx (Request.delete_user id) c {A = Unit {0}}
      (λ _. UsersDeletion.DeletedFrom c id) (λ _. true) entity_user (λ _. id) action_delete user
      allowed (user_deleted_leaves c id) (err e) w h

module _ (lib : Libraries) (secret : String) (ctx : Context) (w : World)
    (idle : w.pending ≡ none) where
  pub create_flag-Settled :
      (input : CreateFlagInput)
      → Settled ctx
          (Request.create_flag input)
          w.committed
          (resolve lib (new_app_resolver secret) ctx (Request.create_flag input) w).1
  unfolding resolve create_flag new_app_resolver
  create_flag-Settled input =
      acting-Settled ctx (Request.create_flag input) w.committed _ _ w refl idle refl
        (λ user allowed.
          audited-Settled ctx (Request.create_flag input) w.committed
            (FlagsChanges.CreatedFrom w.committed input) flag_to_model entity_feature_flag
            (λ f. f.id) action_create user allowed (flag_created_leaves w.committed input) _ _
            (create_flag_fail_closed w (with_actor_id ctx user) input idle))

  pub update_flag-Settled :
      (input : UpdateFlagInput)
      → Settled ctx
          (Request.update_flag input)
          w.committed
          (resolve lib (new_app_resolver secret) ctx (Request.update_flag input) w).1
  unfolding resolve update_flag new_app_resolver
  update_flag-Settled input =
      acting-Settled ctx (Request.update_flag input) w.committed _ _ w refl idle refl
        (λ user allowed.
          audited-Settled ctx (Request.update_flag input) w.committed
            (FlagsChanges.UpdatedFrom w.committed input) flag_to_model entity_feature_flag
            (λ x. x.id) action_update user allowed (flag_updated_leaves w.committed input) _ _
            (update_flag_fail_closed w (with_actor_id ctx user) input idle))

  pub delete_flag-Settled :
      (key env : String)
      → Settled ctx
          (Request.delete_flag key env)
          w.committed
          (resolve lib (new_app_resolver secret) ctx (Request.delete_flag key env) w).1
  unfolding resolve delete_flag new_app_resolver
  delete_flag-Settled key env =
      acting-Settled ctx (Request.delete_flag key env) w.committed _ _ w refl idle refl
        (λ user allowed.
          audited-Settled ctx (Request.delete_flag key env) w.committed
            (FlagsChanges.DeletedFrom w.committed key env) (λ _. true) entity_feature_flag (λ x. x)
            action_delete user allowed (flag_deleted_leaves w.committed key env) _ _
            (delete_flag_fail_closed w (with_actor_id ctx user) key env idle))

  pub create_user-Settled :
      (input : CreateUserInput)
      → Settled ctx
          (Request.create_user input)
          w.committed
          (resolve lib (new_app_resolver secret) ctx (Request.create_user input) w).1
  unfolding resolve create_user new_app_resolver
  create_user-Settled input =
      acting-Settled ctx (Request.create_user input) w.committed _ _ w refl idle refl
        (λ user allowed.
          audited-Settled ctx (Request.create_user input) w.committed
            (UsersEffects.CreatedFrom lib.bcrypt w.committed input) user_to_model entity_user
            (λ x. x.id) action_create user allowed
            (user_created_leaves lib.bcrypt w.committed input) _ _
            (create_user_fail_closed lib.bcrypt w (with_actor_id ctx user) input idle))

  pub update_user-Settled :
      (input : UpdateUserInput)
      → Settled ctx
          (Request.update_user input)
          w.committed
          (resolve lib (new_app_resolver secret) ctx (Request.update_user input) w).1
  unfolding resolve update_user new_app_resolver
  update_user-Settled input =
      acting-Settled ctx (Request.update_user input) w.committed _ _ w refl idle refl
        (λ user allowed.
          audited-Settled ctx (Request.update_user input) w.committed
            (UsersEffects.UpdatedFrom lib.bcrypt w.committed input) user_to_model entity_user
            (λ x. x.id) action_update user allowed
            (user_updated_leaves lib.bcrypt w.committed input) _ _
            (update_user_fail_closed lib.bcrypt w (with_actor_id ctx user) input idle))

  pub delete_user-Settled :
      (id : String)
      → Settled ctx
          (Request.delete_user id)
          w.committed
          (resolve lib (new_app_resolver secret) ctx (Request.delete_user id) w).1
  unfolding resolve TransportMutations.delete_user new_app_resolver
  delete_user-Settled id =
      acting-Settled ctx (Request.delete_user id) w.committed _ _ w refl idle refl (λ user allowed.
        deletion-Settled ctx id user w.committed _ _ allowed
          (delete_user_fail_closed w (with_actor_id ctx user) id idle))

  pub create_experiment-Settled :
      (input : CreateExperimentInput)
      → Settled ctx
          (Request.create_experiment input)
          w.committed
          (resolve lib (new_app_resolver secret) ctx (Request.create_experiment input) w).1
  unfolding resolve create_experiment new_app_resolver create_experiment_with experiments_service
  create_experiment-Settled input =
      acting-Settled ctx (Request.create_experiment input) w.committed _ _ w refl idle refl
        (λ user allowed.
          audited-Settled ctx (Request.create_experiment input) w.committed
            (ExperimentsEffects.CreatedFrom w.committed input) experiment_to_model entity_experiment
            (λ x. x.id) action_create user allowed (experiment_created_leaves w.committed input) _ _
            (create_experiment_fail_closed w (with_actor_id ctx user) input idle))
