-- ===== src/Worker/Budget.antt =====
-- The limit on attempts: their numbers, and which of them wait for a retry.
pub mod Kept
use Prim.Native.Nat.{max}
use nitrohook.Prelude.{
  ℕ, ◌+◌, ◌≤◌, ◌<◌, ◌≡◌, refl, Option, none, some, arith, ◌==◌, ==_iff, All, All-map, All-of_any,
  All-both, All-select_test, All-update_where, All-update_where_from, select, true, false,
  Option-cases, inl, inr,
}
use nitrohook.Model.{Uuid, Time, RawMessage, Action, Delivery, DeliveryAttempt, AttemptStatus}
use nitrohook.Io.{Db, World, Result, ok, err, ◌>>◌, pure}
use nitrohook.Io.Keeps.{Keeps, Keeps-pure, holds_of-ok, Keeps-exec, Keeps-write}
use nitrohook.Io.Triple.{
  Triple, Triple-bind, Triple-if, Triple-exec, Triple-of_Keeps, Keeps-of_Triple,
}
use nitrohook.Store.Deliveries.{is_due, set_outcome, set_texts, add_attempt, Outcome, with_outcome}
use nitrohook.Store.Deliveries
use nitrohook.Store.Keys.{attempt_conflict, add_attempt-ok}
use nitrohook.Dispatch
use nitrohook.Dispatch.{Dispatcher}
use nitrohook.Worker.Env.{Env}
use nitrohook.Worker.Process.{
  no_dispatcher, success_outcome, failure_outcome, record_result, send_attempt, dispatch_created,
  dispatch_action,
}
use nitrohook.Worker.Retry.{cleared_outcome}
use nitrohook.Worker.Keeps.{WorkerKeeps}
use nitrohook.Worker.Dispatching.{next_retry_time-Keeps, dispatch-Keeps}
use nitrohook.Worker.Backoff.{next_retry_time}

-- Attempts are numbered from 1; one is the first, or within the limit; and one that waits for a
-- retry failed below it.
pub record IsWithin (max_retries : ℕ) (a : DeliveryAttempt) : Type 0 where
  pub counted : 1 ≤ a.attempt_number
  pub capped : a.attempt_number ≤ max 1 max_retries
  pub scheduled :
      (t : Time)
      → a.next_retry_at ≡ some t
      → (a.status ≡ AttemptStatus.failed) × (a.attempt_number < max_retries)

pub record IsBudgeted (max_retries : ℕ) (db : Db) : Type 0 where
  pub attempts : All (IsWithin max_retries) db.attempts

-- The rows with an id have a number.
abbrev pub Numbered : Uuid → ℕ → Db → Type 0
Numbered id n db = All (λ a. a.id ≡ id → a.attempt_number ≡ n) db.attempts

conflict_of_id : (a o : DeliveryAttempt) → attempt_conflict a o ≡ false → o.id ≡ a.id → ⊥
conflict_of_id a o c i = ground arith

module _ (max_retries : ℕ) where
  -- An outcome that asks for no retry, or for one of a number below the limit.
  abbrev pub IsAllowed : ℕ → Outcome → Type 0
  IsAllowed n o =
      (t : Time) → o.next_retry_at ≡ some t → (o.status ≡ AttemptStatus.failed) × (n < max_retries)

  pub set_outcome-IsBudgeted :
      (id : Uuid) (n : ℕ) (o : Outcome) (db : Db)
      → IsAllowed n o
      → Numbered id n db
      → IsBudgeted max_retries db
      → IsBudgeted max_retries (set_outcome id o db)
  set_outcome-IsBudgeted id n o db allowed numbered h = record {
    attempts =
        All-update_where_from (λ a. IsWithin max_retries a × (a.id ≡ id → a.attempt_number ≡ n))
          (IsWithin max_retries) (λ a. a.id == id) (with_outcome o) db.attempts
          (λ a e h'. record {
            counted = h'.0.counted;
            capped = h'.0.capped;
            scheduled = λ t p.
                let (failed, below) = allowed t p in
                (failed, rw (h'.1 ((==_iff a.id id).0 e)) below);
          })
          (λ a h'. h'.0) (All-both _ _ db.attempts h.attempts numbered);
  }

  pub set_outcome-none-IsBudgeted :
      (id : Uuid) (o : Outcome) (db : Db)
      → o.next_retry_at ≡ none
      → IsBudgeted max_retries db
      → IsBudgeted max_retries (set_outcome id o db)
  set_outcome-none-IsBudgeted id o db e h = record {
    attempts =
        All-update_where (IsWithin max_retries) (λ a. a.id == id) (with_outcome o) db.attempts
          (λ a _ h'. record {
            counted = h'.counted;
            capped = h'.capped;
            scheduled = λ t p. cc (e, p);
          })
          h.attempts;
  }

  -- A new attempt, and the number of the rows with its id.
  pub add_attempt-IsBudgeted :
      (a b : DeliveryAttempt) (db db' : Db)
      → 1 ≤ a.attempt_number
      → a.attempt_number ≤ max 1 max_retries
      → a.next_retry_at ≡ none
      → IsBudgeted max_retries db
      → add_attempt a db ≡ ok (b, db')
      → IsBudgeted max_retries db' × Numbered b.id a.attempt_number db'
  add_attempt-IsBudgeted a b db db' counted capped e h added =
      let (e₁, e₂, free) = add_attempt-ok a b db db' added in
      rw (e₁, e₂)
        (
          record {
            attempts = (
              record { counted = counted; capped = capped; scheduled = λ t p. cc (e, p) },
              h.attempts,
            );
          },
          (
            (λ _. refl),
            All-map _ _ (λ o c i. absurd (conflict_of_id a o c i)) db.attempts
                (All-of_any (attempt_conflict a) db.attempts free),
          ),
        )
