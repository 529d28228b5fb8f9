-- ===== src/Worker/Attempted/Loop.antt =====
-- The loop over the actions of a delivery: each one that is not skipped has its first attempt.
use nitrohook.Prelude.{
  any-or, ℕ, ◌≡◌, refl, ◌∙◌, true, false, ◌==◌, Option, none, some, List, [], ◌∷◌, arith, any, All,
  any-cons, any-update_where, Option-cases, Bool-cases, ◌⊎◌, inl, inr,
}
use nitrohook.Model.{Uuid, RawMessage, Action, Delivery, DeliveryAttempt}
use nitrohook.Io.{Db, World, ok, call, pure, settle}
use nitrohook.Io.Reliable.{IsReliable, tick, exec-eq}
use nitrohook.Dispatch
use nitrohook.Store.Deliveries
use nitrohook.Store.Deliveries.{with_outcome, same_attempt, new_attempt, add_attempt}
use nitrohook.Store.Keeping.{WorkerChanges, AttemptKeeps}
use nitrohook.Store.Keeping.Writes.{attempt_keeps_of}
use nitrohook.Store.Inversion.{add_attempt-rows}
use nitrohook.Store.References.{has_delivery, has_action}
use nitrohook.Worker.Env.{Env}
use nitrohook.Worker.Process.{
  dispatch_created, dispatch_action, dispatch_applied, dispatch_all, apply_action_transform,
}
use nitrohook.Worker.Keeps.{dispatch_all-Keeps, dispatch_applied-Keeps}
use nitrohook.Worker.Dispatching.{worker-Keeps, send_attempt-Keeps}
use nitrohook.Worker.Guards.{dispatch_action-once}
use nitrohook.Worker.Attempted.Fresh.{IsFresh, DrawsOnce, tick-IsFresh, dispatch_action-IsFresh}

-- An attempt of the number to send the delivery to the action is there.
abbrev pub HasAttempt : Uuid → Uuid → ℕ → Db → Type 0
HasAttempt delivery_id action_id number db =
    any (same_attempt delivery_id action_id number) db.attempts ≡ true

abbrev pub HasFirst : Uuid → Uuid → Db → Type 0
HasFirst delivery_id action_id = HasAttempt delivery_id action_id 1

-- The delivery and the actions are in the tables.
abbrev pub HasRows : Uuid → List Action → Db → Type 0
HasRows id actions db =
    (has_delivery id db.deliveries ≡ true) × All (λ a. has_action a.id db.actions ≡ true) actions

pub attempt_changes :
    (delivery_id action_id : Uuid) (number : ℕ)
    → WorkerChanges (HasAttempt delivery_id action_id number)
attempt_changes delivery_id action_id number = record {
  texts = λ id p h db q. q;
  attempt_added =
      λ a b db db' e q. rw (add_attempt-rows a b db db' e).2 (any-cons _ a db.attempts q);
  outcome = λ id o db q. any-update_where _ _ (with_outcome o) db.attempts (λ x. refl) ∙ q;
}

rows_changes : (id : Uuid) (actions : List Action) → WorkerChanges (HasRows id actions)
rows_changes id actions = record {
  texts = λ i p h db q. (any-update_where _ _ _ db.deliveries (λ x. refl) ∙ q.0, q.1);
  attempt_added = λ a b db db' e q. rw (add_attempt-rows a b db db' e).2 q;
  outcome = λ i o db q. q;
}

-- An attempt that is in conflict with none, of a delivery and an action that are there, is made.
pub add_attempt-free :
    (a : DeliveryAttempt) (db : Db)
    → any (λ o. o.id == a.id) db.attempts ≡ false
    → any (same_attempt a.delivery_id a.action_id a.attempt_number) db.attempts ≡ false
    → has_delivery a.delivery_id db.deliveries ≡ true
    → has_action a.action_id db.actions ≡ true
    → add_attempt a db ≡ ok (a, record db { attempts = a ∷ db.attempts })
unfolding add_attempt
add_attempt-free a db free untried delivery action =
    rw
      (
        any-or (λ o. o.id == a.id) (same_attempt a.delivery_id a.action_id a.attempt_number)
            db.attempts free untried,
        delivery,
        action,
      )
      refl

module _ (env : Env) where
  open env use {host, vm}

  pub attempt_keeps :
      (delivery_id action_id : Uuid) (number : ℕ)
      → AttemptKeeps host (HasAttempt delivery_id action_id number)
  attempt_keeps delivery_id action_id number =
      attempt_keeps_of host (λ id s db q. q) (attempt_changes delivery_id action_id number)

  pub first_keeps :
      (delivery_id action_id : Uuid) → AttemptKeeps host (HasFirst delivery_id action_id)
  first_keeps delivery_id action_id = attempt_keeps delivery_id action_id 1

  pub rows_keeps : (id : Uuid) (actions : List Action) → AttemptKeeps host (HasRows id actions)
  rows_keeps id actions =
      attempt_keeps_of host
        (λ i s db q. (any-update_where _ _ _ db.deliveries (λ x. refl) ∙ q.0, q.1))
        (rows_changes id actions)

  -- The actions that were dispatched, and those that their own script skips.
  abbrev pub IsSettled : Delivery → RawMessage → RawMessage → Action → Db → Type 0
  IsSettled d p h a db =
      HasFirst d.id a.id db ⊎ ((n : ℕ) × (apply_action_transform vm n a p h ≡ none))

  module _ (rel : IsReliable host) (once : DrawsOnce host) (d : Delivery) where
    -- The attempt that a dispatch makes at a world.
    abbrev made : Action → ℕ → World → DeliveryAttempt
    made a number w = new_attempt (host.gen_uuid w.calls) (host.now w.calls) d.id a.id number

    -- One dispatch makes its attempt, unless it is there.
    pub dispatch_action-HasAttempt :
        (a : Action) (number : ℕ) (p h : RawMessage) (w : World)
        → IsFresh host w
        → HasRows d.id (a ∷ []) w.db
        → HasAttempt d.id a.id number (dispatch_action env d a number p h w).1.db
    unfolding dispatch_action dispatch_created Deliveries.create_attempt settle
    dispatch_action-HasAttempt a number p h w fresh there =
        elim (Bool-cases (any (same_attempt d.id a.id number) w.db.attempts)) [
          | inl taken ↦ rw (dispatch_action-once env d a number p h w taken) taken
          | inr free ↦
              rw
                (
                  exec-eq host rel
                      (λ n.
                        add_attempt (new_attempt (host.gen_uuid n) (host.now n) d.id a.id number))
                      w,
                  add_attempt-free (made a number w) w.db (fresh w.calls (omega arith)) free there.0
                      there.1.0,
                )
                ((send_attempt-Keeps env (attempt_keeps d.id a.id number) (made a number w)
                    (Dispatch.get env.registry a.type) d a number p h).at
                  (record (tick w) {
                    db = record w.db { attempts = made a number w ∷ w.db.attempts };
                  })
                  (ground arith))
        ]

    dispatch_applied-HasFirst :
        (a : Action) (q : RawMessage × RawMessage) (w : World)
        → IsFresh host w
        → HasRows d.id (a ∷ []) w.db
        → HasFirst d.id a.id (dispatch_applied env (some q) d a w).1.db
    unfolding dispatch_applied pure
    dispatch_applied-HasFirst a (p, h) w = dispatch_action-HasAttempt a 1 p h w

    dispatch_applied-IsFresh :
        (o : Option (RawMessage × RawMessage)) (a : Action) (w : World)
        → IsFresh host w
        → IsFresh host (dispatch_applied env o d a w).1
    unfolding dispatch_applied pure
    dispatch_applied-IsFresh none a w fresh = fresh
    dispatch_applied-IsFresh (some (p, h)) a w fresh =
        dispatch_action-IsFresh env once d a 1 p h w fresh

    dispatch_applied-IsSettled :
        (n : ℕ) (a : Action) (p h : RawMessage) (w : World)
        → IsFresh host w
        → HasRows d.id (a ∷ []) w.db
        → IsSettled d p h a (dispatch_applied env (apply_action_transform vm n a p h) d a w).1.db
    dispatch_applied-IsSettled n a p h w fresh there =
        elim (Option-cases (apply_action_transform vm n a p h)) [
          | inl e ↦ inr (n, e)
          | inr (q, e) ↦ inl (rw e (dispatch_applied-HasFirst a q w fresh there))
        ]

    pub dispatch_all-IsSettled :
        (p h : RawMessage) (actions : List Action) (w : World)
        → IsFresh host w
        → HasRows d.id actions w.db
        → All (λ a. IsSettled d p h a (dispatch_all env d p h actions w).1.db) actions
    unfolding dispatch_all call
    dispatch_all-IsSettled p h [] w fresh there = tt
    dispatch_all-IsSettled p h (a ∷ rest) w fresh there =
        let o : Option (RawMessage × RawMessage) = apply_action_transform vm w.calls a p h in
        let v : World = (dispatch_applied env o d a (tick w)).1 in
        let there' : HasRows d.id (a ∷ rest) v.db =
          (dispatch_applied-Keeps (worker-Keeps env (rows_keeps d.id (a ∷ rest))) o d a).at (tick w)
            there in
        (
          elim (dispatch_applied-IsSettled w.calls a p h (tick w) (tick-IsFresh host w fresh)
              (there.0, (there.1.0, tt))) [
                | inl first ↦ inl (
                    (dispatch_all-Keeps (worker-Keeps env (first_keeps d.id a.id)) d p h rest).at v
                      first)
                | inr skipped ↦ inr skipped
              ],
          dispatch_all-IsSettled p h rest v
              (dispatch_applied-IsFresh o a (tick w) (tick-IsFresh host w fresh))
              (there'.0, there'.1.1),
        )
