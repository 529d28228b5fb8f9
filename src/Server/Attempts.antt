-- ===== src/Server/Attempts.antt =====
-- How often a delivery is sent to an action.
use Prim.Native.Nat.{max}
use nitrohook.Prelude.{
  ℕ, ◌≤◌, ◌≡◌, Bool, true, false, ◌&&◌, List, ◌==◌, length, select, All-map, All-select,
  All-select_test, Apart-select, Apart-under, length-Apart, same_key, arith,
}
use nitrohook.Model.{Uuid, DeliveryAttempt}
use nitrohook.Io.{Db, World}
use nitrohook.Store.Keys.{attempt_conflict}
use nitrohook.Worker.Budget.{IsWithin}
use nitrohook.Server.Consistent.{IsConsistent, Reach, Reach-IsConsistent}

module _ (delivery_id action_id : Uuid) where
  abbrev of_pair : DeliveryAttempt → Bool
  of_pair a = a.delivery_id == delivery_id && a.action_id == action_id

  -- The attempts to send a delivery to an action.
  abbrev pub attempts_to : Db → List DeliveryAttempt
  attempts_to db = select of_pair db.attempts

  number_apart :
      (x y : DeliveryAttempt)
      → of_pair x ≡ true
      → of_pair y ≡ true
      → attempt_conflict x y ≡ false
      → same_key (λ a. a.attempt_number) x y ≡ false
  number_apart x y p q h = ground arith

  length-attempts_to :
      (limit : ℕ) (db : Db) → IsConsistent limit db → length (attempts_to db) ≤ max 1 limit
  length-attempts_to limit db h =
      length-Apart (λ a. a.attempt_number) (max 1 limit) (attempts_to db)
        (Apart-under (λ a. of_pair a ≡ true) attempt_conflict _ (attempts_to db) number_apart
          (All-map _ _ (λ a q. q.1) (attempts_to db)
            (All-select_test _ of_pair db.attempts h.budget.attempts))
          (Apart-select attempt_conflict of_pair db.attempts h.keys.attempts))
        (All-map (IsWithin limit) _ (λ a q. (q.counted, q.capped)) (attempts_to db)
          (All-select (IsWithin limit) of_pair db.attempts h.budget.attempts))

-- The retries come to an end: however many requests servers answer and jobs workers run, in any
-- order and with any calls failing, at most as many attempts as the limit of retries (or one, if
-- the limit is 0) are made to send a delivery to an action.
pub Reach-attempts_to :
    (limit : ℕ) (delivery_id action_id : Uuid) (w v : World)
    → Reach limit w v
    → IsConsistent limit w.db
    → length (attempts_to delivery_id action_id v.db) ≤ max 1 limit
Reach-attempts_to limit delivery_id action_id w v reach h =
    length-attempts_to delivery_id action_id limit v.db (Reach-IsConsistent limit w v reach h)
