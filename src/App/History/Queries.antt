-- ===== src/App/History/Queries.antt =====
-- The queries of the resolver and the login, each as one step of the history.
use featureflag_api.Prelude.{String, Option, none, ◌≡◌, refl}
use featureflag_api.Prelude.Int.{ℤ, is_negative}
use featureflag_api.Exec.{Result, ok, err, Exec, lift, pure, ◌>>=◌}
use featureflag_api.Exec.Triple.{Triple-pure, Triple-raise, Triple-lift, Triple-bind, Triple-if}
use featureflag_api.Auth.{Context, require_role}
use featureflag_api.Database.{World, on_db}
use featureflag_api.Database.Keeping.{Keeps, Stands, Keeps-Stands, Keeps-reply}
use featureflag_api.Model.{EvaluationContextInput, AuditLogsFilterInput, LoginInput}
use featureflag_api.App.{new_app_resolver}
use featureflag_api.App.Reads.{
  OnlyAssigned, get_user-Keeps, get_user_by_email-Keeps, login-Keeps, evaluate_flag-Keeps,
  get_experiment-Keeps, get_assignment-Keeps, entry_by_id-Keeps, list-Keeps,
}
use featureflag_api.Audit.{ListFilter}
use featureflag_api.Audit.Postgres.{postgres_store}
use featureflag_api.Audit.Service.{Service as AuditService, new_service, get_by_id, list}
use featureflag_api.Transport.{Libraries, experiments_service}
use featureflag_api.Transport.Mutations.{login, admins}
use featureflag_api.Transport.Queries.{
  evaluate_flag, user, user_by_email, experiment, experiment_with, null_if_not_found,
  get_assignment, assignment_with, require_audit_read_access, audit_log, audit_logs, listed_logs,
  stage_or_dev, readers, configured, list_filter, resolved_limit, resolved_offset,
}
use featureflag_api.Transport.Requests.{Request, resolve}

module _ (lib : Libraries) (secret : String) (ctx : Context) (w : World)
    (idle : w.pending ≡ none) where
  -- A query behind the role check.
  read-Stands :
      {A : Type 0} (m : Exec World A)
      → Keeps (OnlyAssigned w.committed) m
      → Stands (OnlyAssigned w.committed) ((lift (require_role ctx readers) >>= λ _. m) w).1
  read-Stands m k =
      Keeps-Stands (OnlyAssigned w.committed)
        (Triple-bind _ _ (Triple-lift _ (λ a e v h. h) (λ v h. h)) (λ _. k)) (idle, refl)

  pub evaluate_flag-Stands :
      (key : String) (x : EvaluationContextInput) (env : Option String)
      → let q = Request.evaluate_flag key x env in
        Stands (OnlyAssigned w.committed) (resolve lib (new_app_resolver secret) ctx q w).1
  unfolding resolve evaluate_flag new_app_resolver
  evaluate_flag-Stands key x env =
      read-Stands _ (evaluate_flag-Keeps w.committed lib.unmarshal key (stage_or_dev env) x)

  pub user-Stands :
      (id : String)
      → let q = Request.user id in
        Stands (OnlyAssigned w.committed) (resolve lib (new_app_resolver secret) ctx q w).1
  unfolding resolve user new_app_resolver
  user-Stands id = read-Stands _ (get_user-Keeps w.committed id)

  pub user_by_email-Stands :
      (email : String)
      → let q = Request.user_by_email email in
        Stands (OnlyAssigned w.committed) (resolve lib (new_app_resolver secret) ctx q w).1
  unfolding resolve user_by_email new_app_resolver
  user_by_email-Stands email = read-Stands _ (get_user_by_email-Keeps w.committed email)

  pub experiment-Stands :
      (key env : String)
      → let q = Request.experiment key env in
        Stands (OnlyAssigned w.committed) (resolve lib (new_app_resolver secret) ctx q w).1
  unfolding resolve experiment experiment_with new_app_resolver experiments_service
  experiment-Stands key env = read-Stands _ (
      Keeps-reply (OnlyAssigned w.committed) _ null_if_not_found
        (get_experiment-Keeps w.committed key env))

  pub get_assignment-Stands :
      (user_id key env : String)
      → let q = Request.get_assignment user_id key env in
        Stands (OnlyAssigned w.committed) (resolve lib (new_app_resolver secret) ctx q w).1
  unfolding resolve get_assignment assignment_with new_app_resolver experiments_service
  get_assignment-Stands user_id key env =
      read-Stands _ (get_assignment-Keeps w.committed user_id key env)

  audit_by :
      {A : Type 0} (s : AuditService) (act : AuditService → Exec World A) (checked : Result String)
      → require_role ctx admins ≡ checked
      → Keeps (OnlyAssigned w.committed) (act s)
      → Stands
          (OnlyAssigned w.committed)
          (((lift (require_role ctx admins) >>= λ _. pure s) >>= act) w).1
  audit_by s act (err e) checked k = rw checked (idle, refl)
  audit_by s act (ok user) checked k =
      rw checked (Keeps-Stands (OnlyAssigned w.committed) k (idle, refl))

  -- A query of the audit log, by the service that the role check lets through.
  audit_read-Stands :
      {A : Type 0} (s : AuditService) (act : AuditService → Exec World A)
      → Keeps (OnlyAssigned w.committed) (act s)
      → Stands
          (OnlyAssigned w.committed)
          (((lift (require_role ctx admins) >>= λ _. pure s) >>= act) w).1
  audit_read-Stands s act = audit_by s act (require_role ctx admins) refl

  pub audit_log-Stands :
      (id : String)
      → let q = Request.audit_log id in
        Stands (OnlyAssigned w.committed) (resolve lib (new_app_resolver secret) ctx q w).1
  unfolding resolve audit_log require_audit_read_access configured get_by_id new_app_resolver
  audit_log-Stands id =
      audit_read-Stands (new_service (postgres_store on_db)) _
        (Triple-bind _ _ (entry_by_id-Keeps w.committed id) (λ e. Triple-pure _ (λ v h. h)))

  listed_logs-Keeps :
      (f : ListFilter) (limit offset : ℤ)
      → Keeps
          (OnlyAssigned w.committed)
          (listed_logs (new_service (postgres_store on_db)) f limit offset)
  unfolding listed_logs list
  listed_logs-Keeps f limit offset =
      Triple-if (is_negative offset) _ _ (λ _. Triple-raise _ (λ v h. h))
        (λ _.
          Triple-bind _ _ (list-Keeps w.committed f limit offset) (λ es. Triple-pure _ (λ v h. h)))

  pub audit_logs-Stands :
      (filter : Option AuditLogsFilterInput) (limit offset : Option ℤ)
      → let q = Request.audit_logs filter limit offset in
        Stands (OnlyAssigned w.committed) (resolve lib (new_app_resolver secret) ctx q w).1
  unfolding resolve audit_logs require_audit_read_access configured new_app_resolver
  audit_logs-Stands filter limit offset =
      audit_read-Stands (new_service (postgres_store on_db)) _
        (listed_logs-Keeps (list_filter filter) (resolved_limit limit) (resolved_offset offset))

  pub login-Stands :
      (input : LoginInput)
      → let q = Request.login input in
        Stands (OnlyAssigned w.committed) (resolve lib (new_app_resolver secret) ctx q w).1
  unfolding resolve login new_app_resolver
  login-Stands input =
      Keeps-Stands (OnlyAssigned w.committed)
        (Triple-bind _ _ (login-Keeps w.committed lib.bcrypt input.email input.password) (λ u.
          Triple-bind _ _ (Triple-lift _ (λ a e v h. h) (λ v h. h))
            (λ token. Triple-pure _ (λ v h. h))))
        (idle, refl)
