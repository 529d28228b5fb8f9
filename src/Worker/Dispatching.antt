-- ===== src/Worker/Dispatching.antt =====
-- One dispatch: what it keeps, and what it does when its attempt is there already.
use nitrohook.Prelude.{ℕ, Option, none, some, List, [], ◌∷◌, All, select}
use mathlib.Core.Path.{subst, sym}
use nitrohook.Model.{RawMessage, Action, Delivery, DeliveryAttempt}
use nitrohook.Io.{Db, Result, ok, err}
use nitrohook.Io.Keeps.{Keeps, Keeps-pure, Keeps-bind, keeps_rules}
use nitrohook.Dispatch
use nitrohook.Dispatch.{Dispatcher}
use nitrohook.Store.Deliveries
use nitrohook.Store.Deliveries.{is_due}
use nitrohook.Store.Keeping.{AttemptKeeps}
use nitrohook.Worker.Env.{Env}
use nitrohook.Worker.Backoff.{next_retry_time}
use nitrohook.Worker.Process.{record_result, send_attempt, dispatch_created, dispatch_action}
use nitrohook.Worker.Keeps.{WorkerKeeps}

module _ (env : Env) {Q : Db → Type 0} where
  pub next_retry_time-Keeps : (n : ℕ) → Keeps Q (next_retry_time env n)
  unfolding next_retry_time
  next_retry_time-Keeps n = search (keeps_rules)

  -- The law of a dispatcher.
  pub dispatch-Keeps :
      (d : Dispatcher) (a : Action) (id : _) (p h : RawMessage) → Keeps Q (d.dispatch a id p h)
  dispatch-Keeps d a id p h = record { at = λ w q. subst Q (sym (d.dispatch-db a id p h w)) q }

All-tt : {A : Type 0} (xs : List A) → All (λ _. Unit {0}) xs
All-tt [] = tt
All-tt (x ∷ xs) = (tt, All-tt xs)

module _ (env : Env) {Q : Db → Type 0} (k : AttemptKeeps env.host Q) where
  record_result-Keeps :
      (a : DeliveryAttempt) (n : ℕ) (r : Dispatch.Result) → Keeps Q (record_result env a n r)
  unfolding record_result
  record_result-Keeps a n r =
      search (keeps_rules, k.attempt_updated, next_retry_time-Keeps env) depth 8

  pub send_attempt-Keeps :
      (a : DeliveryAttempt) (o : Option Dispatcher) (d : Delivery) (act : Action) (n : ℕ)
      (p h : RawMessage)
      → Keeps Q (send_attempt env a o d act n p h)
  unfolding send_attempt
  send_attempt-Keeps a none d act n p h = search (keeps_rules, k.attempt_updated)
  send_attempt-Keeps a (some s) d act n p h =
      Keeps-bind (s.dispatch act (env.host.uuid_string d.id) p h) (record_result env a n)
        (dispatch-Keeps env s act _ p h) (record_result-Keeps a n)

  pub dispatch_action-Keeps :
      (d : Delivery) (act : Action) (n : ℕ) (p h : RawMessage)
      → Keeps Q (dispatch_action env d act n p h)
  unfolding dispatch_action
  dispatch_action-Keeps d act n p h =
      Keeps-bind (Deliveries.create_attempt env.host d.id act.id n) _
        (k.attempt_created d.id act.id n) λ r. created r
    where
      created : (r : Result DeliveryAttempt) → Keeps Q (dispatch_created env r d act n p h)
      created (err e) = Keeps-pure _
      created (ok a) = send_attempt-Keeps a (Dispatch.get env.registry act.type) d act n p h

  -- The worker keeps what each of its writes keeps.
  pub worker-Keeps : WorkerKeeps env (λ _. Unit {0}) Q
  worker-Keeps = record {
    status = k.status;
    transformed = k.transformed;
    dispatched = λ d a p h. dispatch_action-Keeps d a 1 p h;
    redispatched = λ d a prev p h _. dispatch_action-Keeps d a _ p h;
    cleared = λ prev _. k.attempt_updated prev.id _;
    due = λ now db _. All-tt (select (is_due now) db.attempts);
  }
