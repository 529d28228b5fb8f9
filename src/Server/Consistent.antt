-- ===== src/Server/Consistent.antt =====
-- The server and the workers over one database: requests and jobs in any order.
use mathlib.Core.Path.{subst, sym}
use nitrohook.Prelude.{ℕ, ◌≡◌, All-select}
use nitrohook.Io.{Db, World}
use nitrohook.Store.Actions.{remove_action, with_params}
use nitrohook.Store.Sources.{remove_source}
use nitrohook.Store.Keeping.{ClientChanges}
use nitrohook.Store.Keeping.Writes.{client_keeps, attempt_keeps}
use nitrohook.Store.Inversion.{
  add_source-ok, change_source-ok, add_action-ok, change_action-ok, add_delivery-source,
}
use nitrohook.Store.Keys.{HasKeys}
use nitrohook.Store.Keys.Kept as Keys
use nitrohook.Store.References
use nitrohook.Store.References.{HasReferences}
use nitrohook.Store.Values
use nitrohook.Store.Values.{HasValues}
use nitrohook.Worker.Env.{Env}
use nitrohook.Worker.Budget.{IsWithin, IsBudgeted}
use nitrohook.Worker.Budget.Kept.{worker-IsBudgeted}
use nitrohook.Worker.Dispatching.{worker-Keeps}
use nitrohook.Worker.Jobs.{Job, run_job, run_job-Keeps}
use nitrohook.Server.{Server, Incoming, handle}
use nitrohook.Server.Keeps.{handle-Keeps}

-- The keys are unique, every reference has its row, the columns hold what their checks allow, and
-- the attempts are within the limit of retries.
pub record IsConsistent (limit : ℕ) (db : Db) : Type 0 where
  pub keys : HasKeys db
  pub references : HasReferences db
  pub values : HasValues db
  pub budget : IsBudgeted limit db

-- What a process does: a server answers a request, or a worker with the limit `limit` runs a job.
-- Each has its own host, whose calls may fail.
pub data Step (limit : ℕ) : World → World → Type 1 where
  request : (server : Server) (r : Incoming) (w : World) → Step limit w (handle server r w).1
  job :
      (env : Env) (j : Job) (w : World)
      → env.worker.max_retries ≡ limit
      → Step limit w (run_job env j w).1

-- Any number of steps.
pub data Reach (limit : ℕ) : World → World → Type 1 where
  start : (w : World) → Reach limit w w
  after : (w v u : World) → Reach limit w v → Step limit v u → Reach limit w u

-- The handlers change no attempts, but for those that go with their action or their source.
budget_changes : (limit : ℕ) → ClientChanges (IsBudgeted limit)
unfolding remove_source remove_action
budget_changes limit = record {
  source_added = λ s r db db' e h.
      let (_, _, set) = add_source-ok s r db db' e in rw set (record { attempts = h.attempts });
  source_changed = λ now slug name mode body clear r db db' e h.
      let (_, _, set) = change_source-ok now slug name mode body clear r db db' e in
      rw set (record { attempts = h.attempts });
  source_removed =
      λ s db h. record { attempts = All-select (IsWithin limit) _ db.attempts h.attempts };
  action_added = λ a b db db' e h.
      let (_, _, _, set) = add_action-ok a b db db' e in rw set (record { attempts = h.attempts });
  action_changed = λ id now p config b db db' e h.
      rw (change_action-ok id (with_params now p config) b db db' e)
        (record { attempts = h.attempts });
  action_removed =
      λ id db h. record { attempts = All-select (IsWithin limit) _ db.attempts h.attempts };
  delivery_added = λ d e db db' p h.
      let (_, set) = add_delivery-source d e db db' p in rw set (record { attempts = h.attempts });
  status = λ id s db h. record { attempts = h.attempts };
}

request-IsConsistent :
    (limit : ℕ) (server : Server) (r : Incoming) (w : World)
    → IsConsistent limit w.db
    → IsConsistent limit (handle server r w).1.db
request-IsConsistent limit server r w h = record {
  keys = (handle-Keeps server (client_keeps server.host Keys.client_changes) r).at w h.keys;
  references =
      (handle-Keeps server (client_keeps server.host References.client_changes) r).at w
        h.references;
  values = (handle-Keeps server (client_keeps server.host Values.client_changes) r).at w h.values;
  budget = (handle-Keeps server (client_keeps server.host (budget_changes limit)) r).at w h.budget;
}

job-IsConsistent :
    (env : Env) (j : Job) (w : World)
    → IsConsistent env.worker.max_retries w.db
    → IsConsistent env.worker.max_retries (run_job env j w).1.db
job-IsConsistent env j w h = record {
  keys =
      (run_job-Keeps
          (worker-Keeps env (attempt_keeps env.host Keys.client_changes Keys.worker_changes)) j).at
        w h.keys;
  references =
      (run_job-Keeps
          (worker-Keeps env
            (attempt_keeps env.host References.client_changes References.worker_changes))
          j).at
        w h.references;
  values =
      (run_job-Keeps
          (worker-Keeps env (attempt_keeps env.host Values.client_changes Values.worker_changes))
          j).at
        w h.values;
  budget = (run_job-Keeps (worker-IsBudgeted env) j).at w h.budget;
}

Step-IsConsistent :
    (limit : ℕ) (w v : World) → Step limit w v → IsConsistent limit w.db → IsConsistent limit v.db
Step-IsConsistent limit _ _ (request server r w) h = request-IsConsistent limit server r w h
Step-IsConsistent limit _ _ (job env j w e) h =
    subst (λ n. IsConsistent n (run_job env j w).1.db) e
      (job-IsConsistent env j w (subst (λ n. IsConsistent n w.db) (sym e) h))

-- Whatever requests servers answer and whatever jobs workers run, in any order and with any calls
-- failing, the tables stay consistent: the ids and the other keys are unique, each action and each
-- delivery has its source and each attempt its delivery and its action, each source has one of the
-- two modes and each action passes the checks of its type, and no attempt is beyond the limit of
-- retries.
pub Reach-IsConsistent :
    (limit : ℕ) (w v : World) → Reach limit w v → IsConsistent limit w.db → IsConsistent limit v.db
Reach-IsConsistent limit _ _ (start w) h = h
Reach-IsConsistent limit _ _ (after w v u reach step) h =
    Step-IsConsistent limit v u step (Reach-IsConsistent limit w v reach h)
