-- ===== src/Worker/RollUp.antt =====
-- rollUpDeliveryStatus: the status of a delivery from the latest attempts of its actions.
pub mod Verdict
pub mod Outcome
use nitrohook.Prelude.{
  ℕ, Bool, true, false, Option, none, some, List, [], ◌∷◌, ltb, leb, ◌==◌, if◌then◌else◌,
}
use nitrohook.Model.{Uuid, Action, DeliveryStatus, completed, DeliveryAttempt, AttemptStatus}
use nitrohook.Io.{Host, Io, ◌>>=◌, pure}
use nitrohook.Store.Deliveries.{get_by_id, list_attempts_by_delivery, update_status}
use nitrohook.Store.Actions.{list_active_by_source}
use nitrohook.Worker.Env.{or_return, ignore}

-- The map `latest` from action ids to attempts.
abbrev pub Latest : Type 0
Latest = Uuid → Option DeliveryAttempt

abbrev pub put : Latest → Uuid → DeliveryAttempt → Latest
put m k a j = if k == j then some a else m j

-- !ok || a.AttemptNumber > prev.AttemptNumber
abbrev pub replaces : Option DeliveryAttempt → DeliveryAttempt → Bool
replaces none a = true
replaces (some prev) a = ltb prev.attempt_number a.attempt_number

abbrev pub note_attempt : Latest → DeliveryAttempt → Latest
note_attempt m a = if replaces (m a.action_id) a then put m a.action_id a else m

unfoldable pub latest_from : Latest → List DeliveryAttempt → Latest
latest_from m [] = m
latest_from m (a ∷ rest) = latest_from (note_attempt m a) rest

unfoldable pub latest : List DeliveryAttempt → Latest
unfolding latest_from
latest = latest_from (λ _. none)

-- What the loop over the actions does on one of them: return, go on, or note a failure.
pub data Standing : Type 0 where
  unfinished succeeded exhausted : Standing

abbrev pub status_standing : ℕ → ℕ → AttemptStatus → Standing
status_standing max_retries number AttemptStatus.success = succeeded
status_standing max_retries number AttemptStatus.failed =
    if leb max_retries number then exhausted else unfinished
status_standing max_retries number AttemptStatus.pending = unfinished

abbrev pub standing : ℕ → Option DeliveryAttempt → Standing
standing max_retries none = unfinished
standing max_retries (some a) = status_standing max_retries a.attempt_number a.status

-- `none` is the return out of the loop, `some` the final value of anyFailed.
unfoldable pub any_failed : ℕ → Latest → Bool → List Action → Option Bool
any_failed max_retries m failed [] = some failed
any_failed max_retries m failed (a ∷ rest) = elim (standing max_retries (m a.id)) [
  | unfinished ↦ none
  | succeeded ↦ any_failed max_retries m failed rest
  | exhausted ↦ any_failed max_retries m true rest
]

abbrev pub final_status : Bool → DeliveryStatus
final_status true = DeliveryStatus.failed
final_status false = completed

abbrev pub conclude : Host → Uuid → Option Bool → Io (Unit {0})
conclude host id none = pure tt
conclude host id (some failed) = ignore (update_status host id (final_status failed))

unfoldable pub roll_up_delivery_status : Host → ℕ → Uuid → Io (Unit {0})
roll_up_delivery_status host max_retries id = do
  r ← get_by_id host id
  or_return r λ delivery. do
    l ← list_active_by_source host delivery.source_id
    or_return l λ actions. do
      t ← list_attempts_by_delivery host id
      or_return t
          λ attempts. conclude host id (any_failed max_retries (latest attempts) false actions)
