-- ===== src/Worker/Attempted/Retried.antt =====
-- What one retry leaves behind.
use nitrohook.Prelude.{
  sym, Option, suc, ℕ, ◌+◌, ◌≡◌, refl, true, none, some, List, [], ◌∷◌, arith, ◌==◌, ==_refl,
  any-first, first, update_where, Option-cases, Bool-cases, ◌⊎◌, inl, inr, All,
}
use nitrohook.Model.{RawMessage, Uuid, Action, Delivery, DeliveryAttempt}
use nitrohook.Io.{Db, World, call, exec, query, ok}
use nitrohook.Io.Reliable.{IsReliable, tick, exec-eq}
use nitrohook.Store.Deliveries
use nitrohook.Store.Deliveries.{is_due, set_outcome, with_outcome}
use nitrohook.Store.Actions
use nitrohook.Worker.Env.{Env}
use nitrohook.Worker.RollUp.{roll_up_delivery_status}
use nitrohook.Worker.Process.{apply_action_transform}
use nitrohook.Worker.Retry.{
  or_raw, cleared_outcome, dispatch_reshaped, dispatch_to_action, retry_attempt,
}
use nitrohook.Worker.Keeps.{roll_up-Keeps_status}
use nitrohook.Worker.Attempted.Fresh.{IsFresh, DrawsOnce, tick-IsFresh}
use nitrohook.Worker.Attempted.Loop.{
  attempt_changes, HasAttempt, HasRows, dispatch_action-HasAttempt,
}

-- The rows of an id are no longer due, at any time.
abbrev pub IsDone : Uuid → Db → Type 0
IsDone id db = All (λ t. (t.id == id) ≡ true → t.next_retry_at ≡ none) db.attempts

cleared-IsDone :
    (prev : DeliveryAttempt) (attempts : List DeliveryAttempt)
    → All
        (λ t. (t.id == prev.id) ≡ true → t.next_retry_at ≡ none)
        (update_where (λ t. t.id == prev.id) (with_outcome (cleared_outcome prev)) attempts)
cleared-IsDone prev [] = tt
cleared-IsDone prev (t ∷ rest) = elim (Bool-cases (t.id == prev.id)) [
  | inl e ↦ rw e ((λ _. refl), cleared-IsDone prev rest)
  | inr e ↦ rw e ((λ h. cc (e, h)), cleared-IsDone prev rest)
]

-- The text that the script of the source has stored, or that which came.
abbrev pub newest : Option RawMessage → RawMessage → RawMessage
newest none came = came
newest (some transformed) came = transformed

or_raw-newest : (o : Option RawMessage) (raw : RawMessage) → or_raw o raw ≡ newest o raw
or_raw-newest none raw = refl
or_raw-newest (some text) raw = refl

-- The attempt of the number is there, or the run `n` of the action's script skips the delivery.
abbrev pub IsRetried : Env → ℕ → Delivery → Action → ℕ → Db → Type 0
IsRetried env n d a number db =
    HasAttempt d.id a.id number db
    ⊎ (apply_action_transform env.vm n a (or_raw d.transformed_payload d.payload)
          (or_raw d.transformed_headers d.headers)
        ≡ none)

module _ (env : Env) (rel : IsReliable env.host) (once : DrawsOnce env.host) where
  open env use {host, vm, worker}

  dispatch_to_action-IsRetried :
      (d : Delivery) (a : Action) (number : ℕ) (w : World)
      → IsFresh host w
      → HasRows d.id (a ∷ []) w.db
      → IsRetried env w.calls d a number (dispatch_to_action env d a number w).1.db
  unfolding dispatch_to_action dispatch_reshaped call
  dispatch_to_action-IsRetried d a number w fresh there =
      elim (Option-cases (
        apply_action_transform vm w.calls a (or_raw d.transformed_payload d.payload)
          (or_raw d.transformed_headers d.headers))) [
            | inl e ↦ inr (
                rw
                  (
                    sym (or_raw-newest d.transformed_payload d.payload),
                    sym (or_raw-newest d.transformed_headers d.headers),
                  )
                  e)
            | inr ((p, h), e) ↦ inl (
                rw e (
                  dispatch_action-HasAttempt env rel once d a number p h (tick w)
                    (tick-IsFresh host w fresh) there))
          ]

  -- The world after the dispatch of the retry, and the outcome of the row that was retried.
  abbrev dispatched : DeliveryAttempt → Delivery → Action → World → World
  dispatched prev d a w = (dispatch_to_action env d a (prev.attempt_number + 1) (tick (tick w))).1

  abbrev cleared : DeliveryAttempt → World → World
  cleared prev v = record (tick v) { db = set_outcome prev.id (cleared_outcome prev) v.db }

  module _ (prev : DeliveryAttempt) (d : Delivery) (a : Action) (w : World)
      (found : first (λ o. o.id == prev.delivery_id) w.db.deliveries ≡ some d)
      (of_action : first (λ o. o.id == prev.action_id) w.db.actions ≡ some a) where
    retry_attempt-eq :
        retry_attempt env prev w
        ≡ roll_up_delivery_status host worker.max_retries d.id
            (cleared prev (dispatched prev d a w))
    unfolding retry_attempt Deliveries.get_by_id Actions.get_by_id Deliveries.update_attempt query
        exec
    retry_attempt-eq =
        rw
          (
            rel w.calls,
            found,
            rel (suc w.calls),
            of_action,
            exec-eq host rel (λ _ db. ok (tt, set_outcome prev.id (cleared_outcome prev) db))
                (dispatched prev d a w),
          )
          refl

    -- If no call fails and no id is drawn twice, the retry of an attempt whose delivery and action
    -- are in the tables makes the attempt of the next number for them, or the script of the action
    -- skips the delivery, and in both cases no row with the id of the attempt that was retried has a
    -- time for a retry any more.
    pub retry_attempt-IsRetried :
        IsFresh host w
        → IsRetried env
            (suc (suc w.calls))
            d
            a
            (prev.attempt_number + 1)
            (retry_attempt env prev w).1.db
          × IsDone prev.id (retry_attempt env prev w).1.db
    retry_attempt-IsRetried fresh = rw retry_attempt-eq (
      elim (dispatch_to_action-IsRetried d a (prev.attempt_number + 1) (tick (tick w))
          (λ k le. fresh k (omega arith))
          (
            any-first _ (λ o. o.id == d.id) w.db.deliveries d found (==_refl d.id),
            (any-first _ (λ o. o.id == a.id) w.db.actions a of_action (==_refl a.id), tt),
          )) [
            | inl made ↦ inl (
                (roll_up-Keeps_status host {Q = HasAttempt d.id a.id (prev.attempt_number + 1)}
                    (λ id s db q. q) worker.max_retries d.id).at
                  (cleared prev (dispatched prev d a w))
                  ((attempt_changes d.id a.id (prev.attempt_number + 1)).outcome prev.id
                    (cleared_outcome prev) (dispatched prev d a w).db made))
            | inr skipped ↦ inr skipped
          ],
      (roll_up-Keeps_status host {Q = IsDone prev.id} (λ id s db q. q) worker.max_retries d.id).at
          (cleared prev (dispatched prev d a w))
          (cleared-IsDone prev (dispatched prev d a w).db.attempts),
    )
