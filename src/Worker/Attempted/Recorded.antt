-- ===== src/Worker/Attempted/Recorded.antt =====
-- What one dispatch leaves in the tables, and what it sends.
use nitrohook.Prelude.{
  ℕ, suc, ◌≡◌, refl, ◌∙◌, ap, leb, true, false, Option, none, some, ◌∷◌, arith, ◌==◌, ==_refl, any,
  update_where-none, if◌then◌else◌, Bool-cases, inl, inr,
}
use nitrohook.Model.{Time, RawMessage, Action, Delivery, DeliveryAttempt, AttemptStatus}
use nitrohook.Io.{Db, World, exec, pure, call}
use nitrohook.Io.Reliable.{IsReliable}
use nitrohook.Store.Deliveries
use nitrohook.Store.Deliveries.{new_attempt, same_attempt, set_outcome, with_outcome, Outcome}
use nitrohook.Store.References.{has_delivery, has_action}
use nitrohook.Dispatch
use nitrohook.Dispatch.{Dispatcher}
use nitrohook.Worker.Env.{Env}
use nitrohook.Worker.Backoff.{next_retry_time}
use nitrohook.Worker.Process.{success_outcome, failure_outcome, record_result, dispatch_action}
use nitrohook.Worker.Attempted.Loop.{add_attempt-free}

abbrev outcome_of : Dispatch.Result → Option Time → Outcome
outcome_of r next = if r.success then success_outcome r else failure_outcome r next

-- The row of an attempt once its dispatcher has answered.
abbrev pub answered : DeliveryAttempt → Dispatch.Result → Option Time → DeliveryAttempt
answered t r next =
    if r.success
    then record t {
      status = AttemptStatus.success;
      response_status = r.response_status;
      response_body = r.response_body;
      error_message = none;
      next_retry_at = none;
    }
    else record t {
      status = AttemptStatus.failed;
      response_status = r.response_status;
      response_body = r.response_body;
      error_message = r.error_message;
      next_retry_at = next;
    }

record_result-eq :
    (env : Env)
    → IsReliable env.host
    → (a : DeliveryAttempt) (n : ℕ) (r : Dispatch.Result) (w : World)
    → ((record_result env a n r w).1.db
        ≡ set_outcome a.id (outcome_of r (next_retry_time env n w).0) w.db)
      × ((record_result env a n r w).1.outbox ≡ w.outbox)
      × ((record_result env a n r w).1.published ≡ w.published)
      × ((record_result env a n r w).0 ≡ r.success)
unfolding record_result Deliveries.update_attempt next_retry_time call exec pure
record_result-eq env rel a n r w = elim (Bool-cases r.success) [
  | inl good ↦ ground (arith, rel w.calls)
  | inr bad ↦ elim (Bool-cases (leb env.worker.max_retries n)) [
    | inl over ↦ ground (arith, rel w.calls)
    | inr left ↦ ground (arith, rel w.calls, rel (suc w.calls))
  ]
]

-- The row of an id that no other row has is the only one that changes.
set_outcome-answered :
    (t : DeliveryAttempt) (r : Dispatch.Result) (next : Option Time) (db : Db)
    → any (λ o. o.id == t.id) db.attempts ≡ false
    → set_outcome t.id (outcome_of r next) (record db { attempts = t ∷ db.attempts })
      ≡ record db { attempts = answered t r next ∷ db.attempts }
set_outcome-answered t r next db free =
    rw (==_refl t.id, update_where-none _ (with_outcome (outcome_of r next)) db.attempts free)
      (elim (Bool-cases r.success) [ inl good ↦ rw good refl | inr bad ↦ rw bad refl ])

module _ (env : Env) (d : Delivery) (act : Action) (n : ℕ) (p h : RawMessage) (w : World)
    (s : Dispatcher) where
  -- The row with which the dispatcher is called: pending, and of the current time.
  abbrev pub row : DeliveryAttempt
  row = record {
    id = env.host.gen_uuid w.calls;
    delivery_id = d.id;
    action_id = act.id;
    attempt_number = n;
    status = AttemptStatus.pending;
    response_status = none;
    response_body = none;
    error_message = none;
    next_retry_at = none;
    created_at = env.host.now w.calls;
  }

  -- One call of the dispatcher, at the world with this row.
  abbrev pub called : Dispatch.Result × World
  called =
      s.dispatch act (env.host.uuid_string d.id) p h
        (record w { db = record w.db { attempts = row ∷ w.db.attempts }; calls = suc w.calls })

  -- If no call fails, an attempt of a delivery and an action that are there, whose id and number
  -- are free, of a type that has a dispatcher, sends exactly what one call of this dispatcher
  -- sends, at a world where the row of the attempt is there and pending. At the end this row has
  -- the status and the columns of the answer and, if the answer is a failure, the time of the next
  -- retry; nothing else in the tables differs; and the dispatch succeeds exactly when the answer
  -- does.
  pub dispatch_action-records :
      IsReliable env.host
      → any (λ o. o.id == row.id) w.db.attempts ≡ false
      → any (same_attempt d.id act.id n) w.db.attempts ≡ false
      → has_delivery d.id w.db.deliveries ≡ true
      → has_action act.id w.db.actions ≡ true
      → Dispatch.get env.registry act.type ≡ some s
      → ((dispatch_action env d act n p h w).1.db ≡ record w.db {
        attempts = answered row called.0 (next_retry_time env n called.1).0 ∷ w.db.attempts;
      })
        × ((dispatch_action env d act n p h w).1.outbox ≡ called.1.outbox)
        × ((dispatch_action env d act n p h w).1.published ≡ called.1.published)
        × ((dispatch_action env d act n p h w).0 ≡ called.0.success)
  unfolding dispatch_action Deliveries.create_attempt exec pure
  dispatch_action-records rel free untried delivery action known =
      let (done, sent, published, succeeded) = record_result-eq env rel row n called.0 called.1 in
      rw (rel w.calls, add_attempt-free row w.db free untried delivery action, known)
        (
          done
              ∙ ap (set_outcome row.id (outcome_of called.0 (next_retry_time env n called.1).0))
                  (s.dispatch-db act _ p h _)
              ∙ set_outcome-answered row called.0 _ w.db free,
          sent,
          published,
          succeeded,
        )
