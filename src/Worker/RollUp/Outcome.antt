-- ===== src/Worker/RollUp/Outcome.antt =====
-- rollUpDeliveryStatus as a whole, on the tables.
use mathlib.Core.Bool.{true≢false}
use nitrohook.Prelude.{
  ℕ, suc, ◌≡◌, refl, sym, ap, ◌∙◌, ◌⊎◌, inl, inr, Bool, true, false, ◌&&◌, Option, none, some, List,
  [], ◌∷◌, arith, In, All, All-map, Exists, All-In, In-order_by, All-of_order_by, order_by, select,
  update_where, first, ◌==◌,
}
use nitrohook.Model.{Uuid, Action, Delivery, DeliveryStatus, completed, DeliveryAttempt}
use nitrohook.Io.{Db, World, Host, query, exec, pure}
use nitrohook.Io.Reliable.{IsReliable, tick}
use nitrohook.Store.Deliveries.{
  get_by_id, list_attempts_by_delivery, attempts_of, update_status, set_status,
}
use nitrohook.Store.Actions.{list_active_by_source, active_of}
use nitrohook.Worker.RollUp.{latest, any_failed, final_status, conclude, roll_up_delivery_status}
use nitrohook.Worker.RollUp.Verdict.{
  Settled, HasNone, IsLatest, Succeeded, Exhausted, Unfinished, any_failed-Verdict,
}

-- The tables after the loop has ended with `r`.
abbrev pub concluded : Uuid → Option Bool → Db → Db
concluded id none db = db
concluded id (some failed) db = set_status id (final_status failed) db

conclude-eq :
    (host : Host) (id : Uuid) (r : Option Bool) (w : World)
    → IsReliable host
    → (conclude host id r w).1.db ≡ concluded id r w.db
unfolding update_status exec pure
conclude-eq host id none w rel = refl
conclude-eq host id (some failed) w rel = ground (arith, rel w.calls)

module _ (host : Host) (max_retries : ℕ) (rel : IsReliable host) (id : Uuid) (d : Delivery)
    (w : World) (found : first (λ o. o.id == id) w.db.deliveries ≡ some d) where
  abbrev result : Option Bool
  result = any_failed max_retries (latest (attempts_of id w.db)) false (active_of d.source_id w.db)

  roll_up-db : (roll_up_delivery_status host max_retries id w).1.db ≡ concluded id result w.db
  unfolding roll_up_delivery_status get_by_id list_attempts_by_delivery list_active_by_source query
  roll_up-db = ground (
    arith,
    rel w.calls,
    rel (suc w.calls),
    rel (suc (suc w.calls)),
    conclude-eq host id result (tick (tick (tick w))) rel,
  )

Exists-map :
    {A : Type 0} (P Q : A → Type 0)
    → ((a : A) → P a → Q a)
    → (xs : List A) → Exists P xs
    → Exists Q xs
Exists-map P Q f [] h = h
Exists-map P Q f (x ∷ xs) (inl h) = inl (f x h)
Exists-map P Q f (x ∷ xs) (inr h) = inr (Exists-map P Q f xs h)

-- The attempts of a delivery, and the active actions of a source.
abbrev pub sent : Uuid → Db → List DeliveryAttempt
sent id db = select (λ t. t.delivery_id == id) db.attempts

abbrev pub active : Uuid → Db → List Action
active source_id db = select (λ a. a.source_id == source_id && a.is_active) db.actions

-- The tables with another status of the delivery, and nothing else changed.
abbrev pub with_status : Uuid → DeliveryStatus → Db → Db
with_status id status db = record db {
  deliveries = update_where (λ o. o.id == id) (λ o. record o { status = status }) db.deliveries;
}

-- The roll-up ends in one of three ways.
pub data RolledUp (max_retries : ℕ) (id : Uuid) (source_id : Uuid) (before after : Db)
    : Type 0 where
  completes :
      All (Succeeded max_retries (sent id before)) (active source_id before)
      → after ≡ with_status id completed before
      → RolledUp max_retries id source_id before after
  fails :
      All
        (λ a. Succeeded max_retries (sent id before) a ⊎ Exhausted max_retries (sent id before) a)
        (active source_id before)
      → Exists (Exhausted max_retries (sent id before)) (active source_id before)
      → after ≡ with_status id DeliveryStatus.failed before
      → RolledUp max_retries id source_id before after
  waits :
      Exists (Unfinished max_retries (sent id before)) (active source_id before)
      → after ≡ before
      → RolledUp max_retries id source_id before after

-- What the attempts in the order of the query say is what the attempts say.
module _ (max_retries : ℕ) (before : DeliveryAttempt → DeliveryAttempt → Bool)
    (xs : List DeliveryAttempt) where
  unordered-IsLatest :
      (k : Uuid) (a : DeliveryAttempt) → IsLatest k (order_by before xs) a → IsLatest k xs a
  unordered-IsLatest k a l = record {
    member = In-order_by before xs a l.member;
    of_action = l.of_action;
    greatest = All-of_order_by _ before xs l.greatest;
  }

  unordered-Succeeded :
      (act : Action) → Succeeded max_retries (order_by before xs) act → Succeeded max_retries xs act
  unordered-Succeeded act (a, l, e) = (a, unordered-IsLatest act.id a l, e)

  unordered-Exhausted :
      (act : Action) → Exhausted max_retries (order_by before xs) act → Exhausted max_retries xs act
  unordered-Exhausted act (a, l, e, m) = (a, unordered-IsLatest act.id a l, e, m)

  unordered-Unfinished :
      (act : Action)
      → Unfinished max_retries (order_by before xs) act
      → Unfinished max_retries xs act
  unordered-Unfinished act (inl h) = inl (All-of_order_by _ before xs h)
  unordered-Unfinished act (inr (inl (a, l, e))) = inr (inl (a, unordered-IsLatest act.id a l, e))
  unordered-Unfinished act (inr (inr (a, l, e, m))) =
      inr (inr (a, unordered-IsLatest act.id a l, e, m))

module _ (max_retries : ℕ) (id source_id : Uuid) (before after : Db) where
  Settled-RolledUp :
      (r : Option Bool)
      → Settled max_retries (attempts_of id before) r (active_of source_id before)
      → after ≡ concluded id r before
      → RolledUp max_retries id source_id before after
  unfolding attempts_of active_of
  Settled-RolledUp none s e =
      waits (Exists-map _ _ (unordered-Unfinished max_retries _ _) (active source_id before) s) e
  Settled-RolledUp (some false) s e =
      completes (All-map _ _ (unordered-Succeeded max_retries _ _) (active source_id before) s.1) e
  Settled-RolledUp (some true) (over, inl x) e = absurd (true≢false (sym x))
  Settled-RolledUp (some true) (over, inr x) e =
      fails
        (All-map _ _
          (λ act q. elim q [
            | inl good ↦ inl (unordered-Succeeded max_retries _ _ act good)
            | inr bad ↦ inr (unordered-Exhausted max_retries _ _ act bad)
          ])
          (active source_id before) over)
        (Exists-map _ _ (unordered-Exhausted max_retries _ _) (active source_id before) x) e

-- If no call fails, the roll-up of a stored delivery sets its status to completed, when the latest
-- attempt of every active action of its source succeeded, or to failed, when all are over and one
-- has used up its retries, or changes no table, when some active action has no attempt, or its
-- latest attempt is pending or failed below the limit. Nothing else changes in the tables.
pub roll_up-RolledUp :
    (host : Host) (max_retries : ℕ) (id : Uuid) (d : Delivery) (w : World)
    → IsReliable host
    → first (λ o. o.id == id) w.db.deliveries ≡ some d
    → RolledUp max_retries id d.source_id w.db (roll_up_delivery_status host max_retries id w).1.db
roll_up-RolledUp host max_retries id d w rel found =
    Settled-RolledUp max_retries id d.source_id w.db _ (result host max_retries rel id d w found)
      (any_failed-Verdict max_retries (attempts_of id w.db) false (active_of d.source_id w.db))
      (roll_up-db host max_retries rel id d w found)

-- An action without an attempt leaves no verdict but "not yet".
Settled-none :
    (max_retries : ℕ) (xs : List DeliveryAttempt) (r : Option Bool) (acts : List Action)
    (act : Action)
    → Settled max_retries xs r acts
    → In act acts
    → HasNone act.id xs
    → r ≡ none
Settled-none max_retries xs none acts act s m n = refl
Settled-none max_retries xs (some false) acts act s m n =
    let (a, latest_a, _) = All-In _ acts act s.1 m in
    absurd (All-In _ xs a n latest_a.member latest_a.of_action)
Settled-none max_retries xs (some true) acts act s m n = elim (All-In _ acts act s.0 m) [
  | inl (a, l, _) ↦ absurd (All-In _ xs a n l.member l.of_action)
  | inr (a, l, _, _) ↦ absurd (All-In _ xs a n l.member l.of_action)
]

-- If no call fails and some active action of the delivery's source has no attempt for the
-- delivery, the roll-up changes no table: the delivery stays as it is.
pub roll_up-waits :
    (host : Host) (max_retries : ℕ) (id : Uuid) (d : Delivery) (w : World) (act : Action)
    → IsReliable host
    → first (λ o. o.id == id) w.db.deliveries ≡ some d
    → In act (active_of d.source_id w.db)
    → HasNone act.id (attempts_of id w.db)
    → (roll_up_delivery_status host max_retries id w).1.db ≡ w.db
roll_up-waits host max_retries id d w act rel found m n =
    let e =
      Settled-none max_retries (attempts_of id w.db) (result host max_retries rel id d w found)
        (active_of d.source_id w.db) act
        (any_failed-Verdict max_retries (attempts_of id w.db) false (active_of d.source_id w.db)) m
        n in
    roll_up-db host max_retries rel id d w found ∙ ap (λ r. concluded id r w.db) e
