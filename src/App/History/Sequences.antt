-- ===== src/App/History/Sequences.antt =====
-- Any number of requests, one after another.
use mathlib.Core.List.{append-nil, append_assoc}
use featureflag_api.Prelude.{
  String, none, List, [], ◌∷◌, ◌++◌, ◌≡◌, refl, sym, ap, ◌∙◌, ◌⊎◌, inl, inr,
}
use featureflag_api.Auth.{Context}
use featureflag_api.Schema.{Tables, Entry}
use featureflag_api.Database.{World}
use featureflag_api.App.{new_app_resolver}
use featureflag_api.App.Reads.{OnlyAssigned}
use featureflag_api.App.History.{Stands-Settled, Settled, Allowed, Served}
use featureflag_api.App.History.Mutations.{
  create_flag-Settled, update_flag-Settled, delete_flag-Settled, create_user-Settled,
  update_user-Settled, delete_user-Settled, create_experiment-Settled,
}
use featureflag_api.App.History.Queries.{
  evaluate_flag-Stands, user-Stands, user_by_email-Stands, experiment-Stands, get_assignment-Stands,
  audit_log-Stands, audit_logs-Stands, login-Stands,
}
use featureflag_api.Transport.{Libraries}
use featureflag_api.Transport.Requests.{Request, resolve}

-- A request with the context that the middleware gave it.
abbrev pub Call : Type 0
Call = Context × Request

-- The state after a request.
abbrev pub after : Libraries → String → Context → Request → World → World
after lib secret ctx q w = (resolve lib (new_app_resolver secret) ctx q w).1

pub resolve-Settled :
    (lib : Libraries) (secret : String) (ctx : Context) (q : Request) (w : World)
    → w.pending ≡ none
    → Settled ctx q w.committed (after lib secret ctx q w)
resolve-Settled lib secret ctx (Request.create_flag input) w idle =
    create_flag-Settled lib secret ctx w idle input
resolve-Settled lib secret ctx (Request.update_flag input) w idle =
    update_flag-Settled lib secret ctx w idle input
resolve-Settled lib secret ctx (Request.delete_flag key env) w idle =
    delete_flag-Settled lib secret ctx w idle key env
resolve-Settled lib secret ctx (Request.create_user input) w idle =
    create_user-Settled lib secret ctx w idle input
resolve-Settled lib secret ctx (Request.update_user input) w idle =
    update_user-Settled lib secret ctx w idle input
resolve-Settled lib secret ctx (Request.delete_user id) w idle =
    delete_user-Settled lib secret ctx w idle id
resolve-Settled lib secret ctx (Request.create_experiment input) w idle =
    create_experiment-Settled lib secret ctx w idle input
resolve-Settled lib secret ctx (Request.login input) w idle =
    Stands-Settled ctx (Request.login input) w.committed
      (after lib secret ctx (Request.login input) w) (login-Stands lib secret ctx w idle input)
resolve-Settled lib secret ctx (Request.evaluate_flag key x env) w idle =
    Stands-Settled ctx (Request.evaluate_flag key x env) w.committed
      (after lib secret ctx (Request.evaluate_flag key x env) w)
      (evaluate_flag-Stands lib secret ctx w idle key x env)
resolve-Settled lib secret ctx (Request.user id) w idle =
    Stands-Settled ctx (Request.user id) w.committed (after lib secret ctx (Request.user id) w)
      (user-Stands lib secret ctx w idle id)
resolve-Settled lib secret ctx (Request.user_by_email email) w idle =
    Stands-Settled ctx (Request.user_by_email email) w.committed
      (after lib secret ctx (Request.user_by_email email) w)
      (user_by_email-Stands lib secret ctx w idle email)
resolve-Settled lib secret ctx (Request.experiment key env) w idle =
    Stands-Settled ctx (Request.experiment key env) w.committed
      (after lib secret ctx (Request.experiment key env) w)
      (experiment-Stands lib secret ctx w idle key env)
resolve-Settled lib secret ctx (Request.get_assignment user_id key env) w idle =
    Stands-Settled ctx (Request.get_assignment user_id key env) w.committed
      (after lib secret ctx (Request.get_assignment user_id key env) w)
      (get_assignment-Stands lib secret ctx w idle user_id key env)
resolve-Settled lib secret ctx (Request.audit_log id) w idle =
    Stands-Settled ctx (Request.audit_log id) w.committed
      (after lib secret ctx (Request.audit_log id) w) (audit_log-Stands lib secret ctx w idle id)
resolve-Settled lib secret ctx (Request.audit_logs filter limit offset) w idle =
    Stands-Settled ctx (Request.audit_logs filter limit offset) w.committed
      (after lib secret ctx (Request.audit_logs filter limit offset) w)
      (audit_logs-Stands lib secret ctx w idle filter limit offset)

module _ (lib : Libraries) (secret : String) where
  -- The calls, in their order, on the resolver of `NewApp`.
  unfoldable pub serve_all : List Call → World → World
  serve_all [] w = w
  serve_all (call ∷ calls) w = serve_all calls (after lib secret call.0 call.1 w)

-- One of the calls was made by a caller with the subject, who has a role that it needs.
unfoldable pub MadeBy : List Call → String → Type 0
MadeBy [] actor = ⊥
MadeBy (call ∷ calls) actor = Allowed call.0 call.1 actor ⊎ MadeBy calls actor

-- Each entry names such a caller.
unfoldable pub AllMadeBy : List Call → List Entry → Type 0
AllMadeBy calls [] = Unit
AllMadeBy calls (e ∷ es) = MadeBy calls e.actor_id × AllMadeBy calls es

-- The log has grown at its end, by entries of the callers; if by none, only assignments may have
-- changed.
pub record Accounted (calls : List Call) (before t : Tables) : Type 0 where
  pub added : List Entry
  pub appended : t.audit_logs ≡ before.audit_logs ++ added
  pub made_by : AllMadeBy calls added
  pub otherwise : added ≡ [] → OnlyAssigned before t

AllMadeBy-later :
    (call : Call) (calls : List Call) (es : List Entry)
    → AllMadeBy calls es
    → AllMadeBy (call ∷ calls) es
unfolding AllMadeBy MadeBy
AllMadeBy-later call calls [] h = tt
AllMadeBy-later call calls (e ∷ es) h = (inr h.0, AllMadeBy-later call calls es h.1)

next-Accounted :
    (call : Call) (calls : List Call) (before between after : Tables)
    → Served call.0 call.1 before between
    → Accounted calls between after
    → Accounted (call ∷ calls) before after
unfolding AllMadeBy MadeBy
next-Accounted call calls before between after (Served.unlogged same) rest = record {
  added = rest.added;
  appended = rest.appended ∙ ap (λ (t : Tables). t.audit_logs ++ rest.added) same;
  made_by = AllMadeBy-later call calls rest.added rest.made_by;
  otherwise = λ nothing.
      rest.otherwise nothing
      ∙ ap (λ (t : Tables). record t { experiment_assignments = after.experiment_assignments })
          same;
}
next-Accounted call calls before between after (Served.logged e appended allowed) rest = record {
  added = e ∷ rest.added;
  appended =
      rest.appended
      ∙ ap (λ es. es ++ rest.added) appended
      ∙ append_assoc before.audit_logs (e ∷ []) rest.added;
  made_by = (inl allowed, AllMadeBy-later call calls rest.added rest.made_by);
  otherwise = λ nothing. cc;
}

-- Whatever the requests, their callers and the answers of the server: after any sequence of requests
-- no transaction is open, the audit log has only grown at its end, each new entry names the subject
-- of the claims of a caller of one of the requests, who has a role that this request needs, and if
-- there is no new entry, then no flag, rule, user, experiment or variant has changed.
pub serve_all-Accounted :
    (lib : Libraries) (secret : String) (calls : List Call) (w : World)
    → w.pending ≡ none
    → ((serve_all lib secret calls w).pending ≡ none)
      × Accounted calls w.committed (serve_all lib secret calls w).committed
unfolding serve_all AllMadeBy
serve_all-Accounted lib secret [] w idle = (
  idle,
  record {
    added = [];
    appended = sym (append-nil w.committed.audit_logs);
    made_by = tt;
    otherwise = λ _. refl;
  },
)
serve_all-Accounted lib secret (call ∷ calls) w idle =
    let step = resolve-Settled lib secret call.0 call.1 w idle in
    let rest =
      serve_all-Accounted lib secret calls (resolve lib (new_app_resolver secret) call.0 call.1 w).1
        step.0 in
    (rest.0, next-Accounted call calls _ _ _ step.1 rest.1)
