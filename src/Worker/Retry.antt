-- ===== src/Worker/Retry.antt =====
-- dispatchToAction, retryAttempt, and the poll loops: one tick of each, and the stream's messages.
use nitrohook.Prelude.{ℕ, ◌+◌, Bool, true, false, Option, none, some, List, [], ◌∷◌}
use nitrohook.Model.{RawMessage, Action, Delivery, DeliveryAttempt, AttemptStatus}
use nitrohook.Io.{Io, ◌>>=◌, ◌>>◌, call, pure}
use nitrohook.Store.Deliveries
use nitrohook.Store.Deliveries.{Outcome}
use nitrohook.Store.Actions
use nitrohook.Worker.Env.{Env, or_return}
use nitrohook.Worker.RollUp.{roll_up_delivery_status}
use nitrohook.Worker.Process.{apply_action_transform, dispatch_action, process_delivery}

abbrev pub or_raw : Option RawMessage → RawMessage → RawMessage
or_raw none raw = raw
or_raw (some text) raw = text

-- The outcome of the previous attempt, with its retry no longer due.
abbrev pub cleared_outcome : DeliveryAttempt → Outcome
cleared_outcome prev = record {
  status = AttemptStatus.failed;
  response_status = prev.response_status;
  response_body = prev.response_body;
  error_message = prev.error_message;
  next_retry_at = none;
}

module _ (env : Env) where
  open env use {worker, host, vm}

  unfoldable pub dispatch_reshaped :
      Option (RawMessage × RawMessage) → Delivery → Action → ℕ → Io Bool
  dispatch_reshaped none delivery action number = pure true
  dispatch_reshaped (some (payload, headers)) delivery action number =
      dispatch_action env delivery action number payload headers

  unfoldable pub dispatch_to_action : Delivery → Action → ℕ → Io Bool
  unfolding dispatch_reshaped
  dispatch_to_action delivery action number = do
    n ← call
    dispatch_reshaped
        (apply_action_transform vm n action (or_raw delivery.transformed_payload delivery.payload)
          (or_raw delivery.transformed_headers delivery.headers))
        delivery action number

  unfoldable pub retry_attempt : DeliveryAttempt → Io (Unit {0})
  retry_attempt prev = do
    r ← Deliveries.get_by_id host prev.delivery_id
    or_return r λ delivery. do
      l ← Actions.get_by_id host prev.action_id
      or_return l λ action. do
        dispatch_to_action delivery action (prev.attempt_number + 1)
        Deliveries.update_attempt host prev.id (cleared_outcome prev)
        roll_up_delivery_status host worker.max_retries delivery.id

  unfoldable pub retry_all : List DeliveryAttempt → Io (Unit {0})
  unfolding retry_attempt
  retry_all [] = pure tt
  retry_all (a ∷ rest) = do retry_attempt a; retry_all rest

  -- One tick of pollRetries.
  unfoldable pub poll_retries : Io (Unit {0})
  unfolding retry_all
  poll_retries = do
    l ← Deliveries.list_retryable_attempts host 100
    or_return l λ attempts. retry_all attempts

  unfoldable pub process_all : List Delivery → Io (Unit {0})
  process_all [] = pure tt
  process_all (d ∷ rest) = do process_delivery env d.id false; process_all rest

  -- One tick of pollPending.
  unfoldable pub poll_pending : Io (Unit {0})
  unfolding process_all
  poll_pending = do
    l ← Deliveries.list_pending host 100
    or_return l λ deliveries. process_all deliveries
