-- ===== src/Worker/Budget/Kept.antt =====
-- The worker keeps the limit on attempts.
use Prim.Native.Nat.{max}
use nitrohook.Prelude.{
  ℕ, ◌+◌, ◌≤◌, ◌<◌, ◌≡◌, refl, Option, none, some, arith, All-map, All-select_test, select, true,
  false, Option-cases, inl, inr,
}
use nitrohook.Model.{Uuid, Time, RawMessage, Action, Delivery, DeliveryAttempt}
use nitrohook.Io.{Db, World, Result, ok, err, ◌>>◌, pure}
use nitrohook.Io.Keeps.{Keeps, Keeps-pure, holds_of-ok, Keeps-exec, Keeps-write}
use nitrohook.Io.Triple.{
  Triple, Triple-bind, Triple-if, Triple-exec, Triple-of_Keeps, Keeps-of_Triple,
}
use nitrohook.Store.Deliveries.{is_due, set_outcome, set_texts, add_attempt, Outcome, with_outcome}
use nitrohook.Store.Deliveries
use nitrohook.Store.Keeping.Writes.{stored-ok}
use nitrohook.Dispatch
use nitrohook.Dispatch.{Dispatcher}
use nitrohook.Worker.Env.{Env}
use nitrohook.Worker.Process.{
  no_dispatcher, success_outcome, failure_outcome, record_result, send_attempt, dispatch_created,
  dispatch_action,
}
use nitrohook.Worker.Retry.{cleared_outcome}
use nitrohook.Worker.Keeps.{WorkerKeeps}
use nitrohook.Worker.Dispatching.{next_retry_time-Keeps, dispatch-Keeps}
use nitrohook.Worker.Backoff.{next_retry_time}
use nitrohook.Worker.Budget.{
  IsWithin, IsBudgeted, Numbered, IsAllowed, set_outcome-IsBudgeted, set_outcome-none-IsBudgeted,
  add_attempt-IsBudgeted,
}

module _ (env : Env) where
  open env use {worker, host}

  abbrev pub Budgeted : Db → Type 0
  Budgeted = IsBudgeted worker.max_retries

  -- The next retry has a time only below the limit.
  next_retry_time-below :
      (n : ℕ) (w : World) (t : Time) → (next_retry_time env n w).0 ≡ some t → n < worker.max_retries
  unfolding next_retry_time
  next_retry_time-below n w t h = ground arith

  -- Within the budget, and the rows of the attempt at hand have its number.
  abbrev Held : Uuid → ℕ → Db → Type 0
  Held id n db = Budgeted db × Numbered id n db

  update_attempt-Held :
      (id : Uuid) (n : ℕ) (o : Outcome)
      → IsAllowed worker.max_retries n o
      → Triple (Held id n) (Deliveries.update_attempt host id o) (λ _. Budgeted)
  unfolding Deliveries.update_attempt
  update_attempt-Held id n o allowed =
      Triple-exec (λ _. Budgeted) host _ (λ e db h. h.0)
        λ c db db' a h e.
          holds_of-ok Budgeted tt a (set_outcome id o db) db'
            (set_outcome-IsBudgeted worker.max_retries id n o db allowed h.1 h.0) e

  record_failure-Held :
      (a : DeliveryAttempt) (n : ℕ) (r : Dispatch.Result) (next : Option Time)
      → Triple
          (λ db. Held a.id n db × ((t : Time) → next ≡ some t → n < worker.max_retries))
          (do Deliveries.update_attempt host a.id (failure_outcome r next); pure false)
          (λ _. Budgeted)
  unfolding pure
  record_failure-Held a n r next = record {
    at = λ w h.
        (update_attempt-Held a.id n (failure_outcome r next) (λ t e. (refl, h.1 t e))).at w h.0;
  }

  success-Held :
      (a : DeliveryAttempt) (n : ℕ) (r : Dispatch.Result)
      → Triple
          (Held a.id n)
          (do Deliveries.update_attempt host a.id (success_outcome r); pure true)
          (λ _. Budgeted)
  unfolding pure
  success-Held a n r = record {
    at = λ w h. (update_attempt-Held a.id n (success_outcome r) (λ t e. cc)).at w h;
  }

  record_result-Held :
      (a : DeliveryAttempt) (n : ℕ) (r : Dispatch.Result)
      → Triple (Held a.id n) (record_result env a n r) (λ _. Budgeted)
  unfolding record_result
  record_result-Held a n r = Triple-if r.success _ _ (success-Held a n r) (
      Triple-bind
        (λ next db. Held a.id n db × ((t : Time) → next ≡ some t → n < worker.max_retries))
        (next_retry_time env n) _
        (record {
          at = λ w h.
              ((next_retry_time-Keeps env {Q = Held a.id n} n).at w h, next_retry_time-below n w);
        })
        (record_failure-Held a n r))

  send_attempt-Held :
      (a : DeliveryAttempt) (o : Option Dispatcher) (d : Delivery) (act : Action) (n : ℕ)
      (p h : RawMessage)
      → Triple (Held a.id n) (send_attempt env a o d act n p h) (λ _. Budgeted)
  unfolding send_attempt pure
  send_attempt-Held a none d act n p h = record {
    at = λ w q.
        (update_attempt-Held a.id n (no_dispatcher (Dispatch.get_error act.type)) (λ t e. cc)).at w
          q;
  }
  send_attempt-Held a (some s) d act n p h =
      Triple-bind (λ _. Held a.id n) (s.dispatch act (host.uuid_string d.id) p h)
        (record_result env a n) (Triple-of_Keeps _ (dispatch-Keeps env s act _ p h))
        (record_result-Held a n)

  abbrev Created : ℕ → Result DeliveryAttempt → Db → Type 0
  Created n (ok a) db = Held a.id n db
  Created n (err e) db = Budgeted db

  dispatch_created-Budgeted :
      (r : Result DeliveryAttempt) (d : Delivery) (act : Action) (n : ℕ) (p h : RawMessage)
      → Triple (Created n r) (dispatch_created env r d act n p h) (λ _. Budgeted)
  unfolding dispatch_created
  dispatch_created-Budgeted (err e) d act n p h = Triple-of_Keeps _ (Keeps-pure _)
  dispatch_created-Budgeted (ok a) d act n p h =
      send_attempt-Held a (Dispatch.get env.registry act.type) d act n p h

  create_attempt-Created :
      (delivery_id action_id : Uuid) (n : ℕ)
      → 1 ≤ n
      → n ≤ max 1 worker.max_retries
      → Triple Budgeted (Deliveries.create_attempt host delivery_id action_id n) (Created n)
  unfolding Deliveries.create_attempt
  create_attempt-Created delivery_id action_id n counted capped =
      Triple-exec (Created n) host _ (λ e db h. h)
        λ c db db' a h e.
          add_attempt-IsBudgeted worker.max_retries _ a db db' counted capped refl h e

  dispatch_action-Budgeted :
      (d : Delivery) (act : Action) (n : ℕ) (p h : RawMessage)
      → 1 ≤ n
      → n ≤ max 1 worker.max_retries
      → Keeps Budgeted (dispatch_action env d act n p h)
  unfolding dispatch_action
  dispatch_action-Budgeted d act n p h counted capped = Keeps-of_Triple _ (
      Triple-bind (Created n) (Deliveries.create_attempt host d.id act.id n) _
        (create_attempt-Created d.id act.id n counted capped)
        (λ r. dispatch_created-Budgeted r d act n p h))

  -- What is due was tried fewer times than the limit.
  abbrev pub BelowLimit : DeliveryAttempt → Type 0
  BelowLimit a = a.attempt_number < worker.max_retries

  due-BelowLimit :
      (now : Time) (a : DeliveryAttempt)
      → IsWithin worker.max_retries a
      → is_due now a ≡ true
      → BelowLimit a
  due-BelowLimit now a h e = elim (Option-cases a.next_retry_at) [
    | inl none_due ↦ ground arith
    | inr (t, some_due) ↦ (h.scheduled t some_due).1
  ]

  set_transformed-Budgeted :
      (id : Uuid) (p q : RawMessage) → Keeps Budgeted (Deliveries.set_transformed host id p q)
  unfolding Deliveries.set_transformed
  set_transformed-Budgeted id p q = Keeps-exec host _ λ c db db' a h e.
      let (t, _, e₁) = stored-ok (host.jsonb p) _ _ e in
      let (s, _, e₂) = stored-ok (host.jsonb q) _ _ e₁ in
      holds_of-ok Budgeted tt a (set_texts id t s db) db' (record { attempts = h.attempts }) e₂

  cleared-Budgeted :
      (prev : DeliveryAttempt)
      → Keeps Budgeted (Deliveries.update_attempt host prev.id (cleared_outcome prev))
  unfolding Deliveries.update_attempt
  cleared-Budgeted prev =
      Keeps-write host (λ _ db. (tt, set_outcome prev.id (cleared_outcome prev) db))
        λ _ db h.
          set_outcome-none-IsBudgeted worker.max_retries prev.id (cleared_outcome prev) db refl h

  -- The worker keeps the budget.
  pub worker-IsBudgeted : WorkerKeeps env BelowLimit Budgeted
  worker-IsBudgeted = record {
    status = λ id s db h. record { attempts = h.attempts };
    transformed = set_transformed-Budgeted;
    dispatched = λ d a p h. dispatch_action-Budgeted d a 1 p h (omega arith) (omega arith);
    redispatched = λ d a prev p h below.
        dispatch_action-Budgeted d a (prev.attempt_number + 1) p h (omega arith) (omega arith);
    cleared = λ prev _. cleared-Budgeted prev;
    due = λ now db h.
        All-map _ _ (λ a q. due-BelowLimit now a q.0 q.1) (select (is_due now) db.attempts)
          (All-select_test _ (is_due now) db.attempts h.attempts);
  }
