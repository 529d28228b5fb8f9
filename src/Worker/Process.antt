-- ===== src/Worker/Process.antt =====
-- processDelivery and what it calls, down to one dispatch.
mod Transform
pub mod Filtering
unfoldable pub use Transform.{run_transform, apply_action_transform, refs_of, script_of}
use nitrohook.Prelude.{
  ℕ, String, Bool, true, false, not, ◌&&◌, Option, none, some, List, [], ◌∷◌, ◌==◌, same,
  if◌then◌else◌, any, select,
}
use nitrohook.Model.{
  Uuid, Time, RawMessage, Source, Action, Delivery, DeliveryStatus, pending, processing, completed,
  recorded, DeliveryAttempt, AttemptStatus,
}
use nitrohook.Io.{Result, ok, err, Io, ◌>>=◌, ◌>>◌, call, pure}
use nitrohook.Script.{Vm, ActionRef, Try, TransformResult, dropped, transformed}
use nitrohook.Dispatch.{Dispatcher}
use nitrohook.Dispatch
use nitrohook.Store.Deliveries
use nitrohook.Store.Deliveries.{Outcome}
use nitrohook.Store.Sources
use nitrohook.Store.Actions
use nitrohook.Worker.Env.{Env, or_return, ignore, is_empty}
use nitrohook.Worker.Backoff.{next_retry_time}
use nitrohook.Worker.RollUp.{roll_up_delivery_status}

-- The statuses at which a worker takes a delivery up.
abbrev pub accepts : Bool → DeliveryStatus → Bool
accepts force pending = true
accepts force recorded = force
accepts force _ = false

-- `keptIDs[a.ID]`
unfoldable pub filter_actions : List Action → List ActionRef → List Action
filter_actions all kept = select (λ a. any (λ k. k.id == a.id) kept) all

abbrev pub success_outcome : Dispatch.Result → Outcome
success_outcome r = record {
  status = AttemptStatus.success;
  response_status = r.response_status;
  response_body = r.response_body;
  error_message = none;
  next_retry_at = none;
}

abbrev pub failure_outcome : Dispatch.Result → Option Time → Outcome
failure_outcome r next = record {
  status = AttemptStatus.failed;
  response_status = r.response_status;
  response_body = r.response_body;
  error_message = r.error_message;
  next_retry_at = next;
}

-- No dispatcher is registered for the type.
abbrev pub no_dispatcher : String → Outcome
no_dispatcher text = record {
  status = AttemptStatus.failed;
  response_status = none;
  response_body = none;
  error_message = some text;
  next_retry_at = none;
}

module _ (env : Env) where
  open env use {worker, host, vm, registry}

  -- UpdateStatus as the last thing that is done.
  abbrev finish : Uuid → DeliveryStatus → Io (Unit {0})
  finish id status = ignore (Deliveries.update_status host id status)

  -- The attempt's row after the dispatcher has answered; the result is whether it succeeded.
  unfoldable pub record_result : DeliveryAttempt → ℕ → Dispatch.Result → Io Bool
  record_result attempt number r =
      if r.success
      then (do Deliveries.update_attempt host attempt.id (success_outcome r); pure true)
      else do
        next ← next_retry_time env number
        Deliveries.update_attempt host attempt.id (failure_outcome r next)
        pure false

  unfoldable pub send_attempt :
      DeliveryAttempt
      → Option Dispatcher
      → Delivery
      → Action
      → ℕ
      → RawMessage
      → RawMessage
      → Io Bool
  unfolding record_result
  send_attempt attempt none delivery action number payload headers = do
    Deliveries.update_attempt host attempt.id (no_dispatcher (Dispatch.get_error action.type))
    pure false
  send_attempt attempt (some d) delivery action number payload headers = do
    r ← d.dispatch action (host.uuid_string delivery.id) payload headers
    record_result attempt number r

  unfoldable pub dispatch_created :
      Result DeliveryAttempt → Delivery → Action → ℕ → RawMessage → RawMessage → Io Bool
  unfolding send_attempt
  dispatch_created (err e) delivery action number payload headers = pure false
  dispatch_created (ok attempt) delivery action number payload headers =
      send_attempt attempt (Dispatch.get registry action.type) delivery action number payload
        headers

  unfoldable pub dispatch_action : Delivery → Action → ℕ → RawMessage → RawMessage → Io Bool
  unfolding dispatch_created
  dispatch_action delivery action number payload headers = do
    r ← Deliveries.create_attempt host delivery.id action.id number
    dispatch_created r delivery action number payload headers

  -- One round of the loop over the actions: `none` is a skipped action.
  unfoldable pub dispatch_applied :
      Option (RawMessage × RawMessage) → Delivery → Action → Io (Unit {0})
  unfolding dispatch_action
  dispatch_applied none delivery action = pure tt
  dispatch_applied (some (payload, headers)) delivery action =
      ignore (dispatch_action delivery action 1 payload headers)

  unfoldable pub dispatch_all : Delivery → RawMessage → RawMessage → List Action → Io (Unit {0})
  unfolding dispatch_applied
  dispatch_all delivery payload headers [] = pure tt
  dispatch_all delivery payload headers (a ∷ rest) = do
    n ← call
    dispatch_applied (apply_action_transform vm n a payload headers) delivery a
    dispatch_all delivery payload headers rest

  unfoldable pub dispatch_and_roll_up :
      Delivery → RawMessage → RawMessage → List Action → Io (Unit {0})
  unfolding dispatch_all
  dispatch_and_roll_up delivery payload headers actions =
      if is_empty actions then finish delivery.id completed else do
        dispatch_all delivery payload headers actions
        roll_up_delivery_status host worker.max_retries delivery.id

  -- An empty list of kept actions completes the delivery.
  unfoldable pub dispatch_kept :
      Delivery → List Action → RawMessage → RawMessage → List ActionRef → Io (Unit {0})
  unfolding dispatch_and_roll_up filter_actions
  dispatch_kept delivery actions payload headers [] = finish delivery.id completed
  dispatch_kept delivery actions payload headers (k ∷ kept) =
      dispatch_and_roll_up delivery payload headers (filter_actions actions (k ∷ kept))

  -- The transformed texts are stored and used, and the kept actions dispatched.
  unfoldable pub use_transformed :
      Delivery
      → List Action
      → List ActionRef
      → Option RawMessage
      → Option RawMessage
      → Io (Unit {0})
  unfolding dispatch_kept
  use_transformed delivery actions kept none headers = finish delivery.id DeliveryStatus.failed
  use_transformed delivery actions kept (some p) none = finish delivery.id DeliveryStatus.failed
  use_transformed delivery actions kept (some p) (some h) = do
    Deliveries.set_transformed host delivery.id p h
    dispatch_kept delivery actions p h kept

  unfoldable pub after_transform : Delivery → List Action → Try (TransformResult vm) → Io (Unit {0})
  unfolding use_transformed
  after_transform delivery actions (Try.err e) = finish delivery.id DeliveryStatus.failed
  after_transform delivery actions (Try.ok dropped) = finish delivery.id completed
  after_transform delivery actions (Try.ok (transformed payload headers kept)) =
      use_transformed delivery actions kept (vm.marshal_object payload) (vm.marshal_headers headers)

  unfoldable pub fan_out : Delivery → List Action → Option String → Io (Unit {0})
  unfolding after_transform
  fan_out delivery actions none =
      dispatch_and_roll_up delivery delivery.payload delivery.headers actions
  fan_out delivery actions (some body) = do
    n ← call
    after_transform delivery actions (run_transform vm n body delivery actions)

  -- From UpdateStatus(processing) on.
  unfoldable pub take_up : Delivery → Source → Io (Unit {0})
  unfolding fan_out
  take_up delivery src = do
    u ← Deliveries.update_status host delivery.id processing
    or_return u λ _. do
      l ← Actions.list_active_by_source host delivery.source_id
      or_return l λ actions.
          if is_empty actions
          then finish delivery.id completed
          else fan_out delivery actions (script_of src.script_body)

  unfoldable pub process_delivery : Uuid → Bool → Io (Unit {0})
  unfolding take_up
  process_delivery id force = do
    r ← Deliveries.get_by_id host id
    or_return r λ delivery. if not (accepts force delivery.status) then pure tt else do
      s ← Sources.get_by_id host delivery.source_id
      or_return s λ src.
          if not force && same src.mode "record" then finish id recorded else take_up delivery src
