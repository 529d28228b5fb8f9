-- ===== src/Worker/Keeps.antt =====
-- Invariants of the tables under the worker: what its few writes must keep, so that all that it
-- does keeps it.
use nitrohook.Prelude.{
  ℕ, ◌+◌, String, Bool, true, false, Option, none, some, List, [], ◌∷◌, ◌++◌, All, All-order_by,
  All-take, select,
}
use nitrohook.Model.{
  Uuid, Time, RawMessage, Source, Action, Delivery, DeliveryStatus, DeliveryAttempt,
}
use nitrohook.Io.{Host, Db, Result, ok, err, Io, call}
use nitrohook.Io.Keeps.{
  Keeps, Keeps-pure, Keeps-bind, Keeps-call, Keeps-query, Keeps-write, keeps_rules,
}
use nitrohook.Io.Triple.{Triple, Triple-bind, Triple-query, Triple-of_Keeps, Keeps-of_Triple}
use nitrohook.Script.{ActionRef, Try, TransformResult, dropped, transformed}
use nitrohook.Store.Deliveries
use nitrohook.Store.Deliveries.{set_status, set_outcome, is_due, retry_key}
use nitrohook.Store.Actions
use nitrohook.Store.Sources
use nitrohook.Worker.Env.{Env, or_return, ignore}
use nitrohook.Worker.RollUp.{conclude, roll_up_delivery_status}
use nitrohook.Worker.Process.{
  apply_action_transform, dispatch_action, dispatch_applied, dispatch_all, dispatch_and_roll_up,
  dispatch_kept, use_transformed, after_transform, fan_out, take_up, process_delivery,
}
use nitrohook.Worker.Retry.{
  or_raw, cleared_outcome, dispatch_reshaped, dispatch_to_action, retry_attempt, retry_all,
  poll_retries, process_all, poll_pending,
}
use nitrohook.Worker.Stream.{
  Entry, Reading, timed_out, broken, read, Command, issue, consume_parsed, consume_value, consume,
  consume_entries, consume_streams, consume_reading, consume_round,
}

Keeps-or_return :
    {A : Type 0} {Q : Db → Type 0} (r : Result A) (k : A → Io (Unit {0}))
    → ((a : A) → Keeps Q (k a))
    → Keeps Q (or_return r k)
Keeps-or_return (ok a) k h = h a
Keeps-or_return (err e) k h = Keeps-pure tt

-- The writes of the worker. `R` is what the worker knows of an attempt that is due.
pub record WorkerKeeps (env : Env) (R : DeliveryAttempt → Type 0) (Q : Db → Type 0) : Type 1 where
  pub status : (id : Uuid) (s : DeliveryStatus) (db : Db) → Q db → Q (set_status id s db)
  pub transformed :
      (id : Uuid) (p h : RawMessage) → Keeps Q (Deliveries.set_transformed env.host id p h)
  pub dispatched :
      (d : Delivery) (a : Action) (p h : RawMessage) → Keeps Q (dispatch_action env d a 1 p h)
  pub redispatched :
      (d : Delivery) (a : Action) (prev : DeliveryAttempt) (p h : RawMessage)
      → R prev
      → Keeps Q (dispatch_action env d a (prev.attempt_number + 1) p h)
  pub cleared :
      (prev : DeliveryAttempt)
      → R prev
      → Keeps Q (Deliveries.update_attempt env.host prev.id (cleared_outcome prev))
  pub due : (now : Time) (db : Db) → Q db → All R (select (is_due now) db.attempts)

-- What only writes a status.
module _ (host : Host) {Q : Db → Type 0}
    (status : (id : Uuid) (s : DeliveryStatus) (db : Db) → Q db → Q (set_status id s db)) where
  pub status-Keeps : (id : Uuid) (s : DeliveryStatus) → Keeps Q (Deliveries.update_status host id s)
  unfolding Deliveries.update_status
  status-Keeps id s =
      Keeps-write host (λ _ db. (tt, set_status id s db)) (λ _ db h. status id s db h)

  concluded-Keeps : (id : Uuid) (r : Option Bool) → Keeps Q (conclude host id r)
  concluded-Keeps id none = Keeps-pure tt
  concluded-Keeps id (some b) = search (keeps_rules, status-Keeps)

  pub roll_up-Keeps_status : (n : ℕ) (id : Uuid) → Keeps Q (roll_up_delivery_status host n id)
  unfolding roll_up_delivery_status Deliveries.get_by_id Deliveries.list_attempts_by_delivery
      Actions.list_active_by_source
  roll_up-Keeps_status n id = search (keeps_rules, Keeps-or_return, concluded-Keeps) depth 14

module _ {env : Env} {R : DeliveryAttempt → Type 0} {Q : Db → Type 0}
    (k : WorkerKeeps env R Q) where
  pub update_status-Keeps :
      (id : Uuid) (s : DeliveryStatus) → Keeps Q (Deliveries.update_status env.host id s)
  update_status-Keeps = status-Keeps env.host k.status

  pub roll_up-Keeps : (n : ℕ) (id : Uuid) → Keeps Q (roll_up_delivery_status env.host n id)
  roll_up-Keeps = roll_up-Keeps_status env.host k.status

  pub finish-Keeps :
      (id : Uuid) (s : DeliveryStatus) → Keeps Q (ignore (Deliveries.update_status env.host id s))
  finish-Keeps id s = search (keeps_rules, update_status-Keeps)

  pub dispatch_applied-Keeps :
      (o : Option (RawMessage × RawMessage)) (d : Delivery) (a : Action)
      → Keeps Q (dispatch_applied env o d a)
  unfolding dispatch_applied
  dispatch_applied-Keeps none d a = Keeps-pure tt
  dispatch_applied-Keeps (some (p, h)) d a = search (keeps_rules, k.dispatched)

  pub dispatch_all-Keeps :
      (d : Delivery) (p h : RawMessage) (acts : List Action) → Keeps Q (dispatch_all env d p h acts)
  unfolding dispatch_all
  dispatch_all-Keeps d p h [] = Keeps-pure tt
  dispatch_all-Keeps d p h (a ∷ rest) = Keeps-bind call _ Keeps-call λ n.
      let o : Option (RawMessage × RawMessage) = apply_action_transform env.vm n a p h in
      Keeps-bind (dispatch_applied env o d a) (λ _. dispatch_all env d p h rest)
        (dispatch_applied-Keeps o d a) (λ _. dispatch_all-Keeps d p h rest)

  pub dispatch_and_roll_up-Keeps :
      (d : Delivery) (p h : RawMessage) (acts : List Action)
      → Keeps Q (dispatch_and_roll_up env d p h acts)
  unfolding dispatch_and_roll_up
  dispatch_and_roll_up-Keeps d p h acts =
      search (keeps_rules, finish-Keeps, dispatch_all-Keeps, roll_up-Keeps)

  dispatch_kept-Keeps :
      (d : Delivery) (acts : List Action) (p h : RawMessage) (kept : List ActionRef)
      → Keeps Q (dispatch_kept env d acts p h kept)
  unfolding dispatch_kept
  dispatch_kept-Keeps d acts p h [] = finish-Keeps d.id _
  dispatch_kept-Keeps d acts p h (r ∷ kept) = dispatch_and_roll_up-Keeps d p h _

  use_transformed-Keeps :
      (d : Delivery) (acts : List Action) (kept : List ActionRef) (p h : Option RawMessage)
      → Keeps Q (use_transformed env d acts kept p h)
  unfolding use_transformed
  use_transformed-Keeps d acts kept none h = finish-Keeps d.id _
  use_transformed-Keeps d acts kept (some p) none = finish-Keeps d.id _
  use_transformed-Keeps d acts kept (some p) (some h) =
      search (keeps_rules, k.transformed, dispatch_kept-Keeps)

  after_transform-Keeps :
      (d : Delivery) (acts : List Action) (t : Try (TransformResult env.vm))
      → Keeps Q (after_transform env d acts t)
  unfolding after_transform
  after_transform-Keeps d acts (Try.err e) = finish-Keeps d.id _
  after_transform-Keeps d acts (Try.ok dropped) = finish-Keeps d.id _
  after_transform-Keeps d acts (Try.ok (transformed p h kept)) =
      use_transformed-Keeps d acts kept _ _

  fan_out-Keeps :
      (d : Delivery) (acts : List Action) (script : Option String)
      → Keeps Q (fan_out env d acts script)
  unfolding fan_out
  fan_out-Keeps d acts none = dispatch_and_roll_up-Keeps d _ _ acts
  fan_out-Keeps d acts (some body) = search (keeps_rules, after_transform-Keeps)

  take_up-Keeps : (d : Delivery) (s : Source) → Keeps Q (take_up env d s)
  unfolding take_up Actions.list_active_by_source
  take_up-Keeps d s =
      search (keeps_rules, Keeps-or_return, update_status-Keeps, finish-Keeps, fan_out-Keeps) depth
        14

  pub process_delivery-Keeps : (id : Uuid) (force : Bool) → Keeps Q (process_delivery env id force)
  unfolding process_delivery Deliveries.get_by_id Sources.get_by_id
  process_delivery-Keeps id force =
      search (keeps_rules, Keeps-or_return, finish-Keeps, take_up-Keeps) depth 14

  dispatch_to_action-Keeps :
      (d : Delivery) (a : Action) (prev : DeliveryAttempt)
      → R prev
      → Keeps Q (dispatch_to_action env d a (prev.attempt_number + 1))
  unfolding dispatch_to_action
  dispatch_to_action-Keeps d a prev r = Keeps-bind call _ Keeps-call λ n. go (
      apply_action_transform env.vm n a (or_raw d.transformed_payload d.payload)
        (or_raw d.transformed_headers d.headers))
    where
      go :
          (o : Option (RawMessage × RawMessage))
          → Keeps Q (dispatch_reshaped env o d a (prev.attempt_number + 1))
      go none = Keeps-pure true
      go (some (p, h)) = k.redispatched d a prev p h r

  pub retry_attempt-Keeps : (prev : DeliveryAttempt) → R prev → Keeps Q (retry_attempt env prev)
  unfolding retry_attempt Deliveries.get_by_id Actions.get_by_id
  retry_attempt-Keeps prev r =
      Keeps-bind (Deliveries.get_by_id env.host prev.delivery_id) _ (Keeps-query env.host _)
        λ found. Keeps-or_return found _ λ d.
          Keeps-bind (Actions.get_by_id env.host prev.action_id) _ (Keeps-query env.host _) λ l.
            Keeps-or_return l _ λ a.
              Keeps-bind (dispatch_to_action env d a (prev.attempt_number + 1)) _
                (dispatch_to_action-Keeps d a prev r)
                λ _.
                  Keeps-bind (Deliveries.update_attempt env.host prev.id (cleared_outcome prev)) _
                    (k.cleared prev r) λ _. roll_up-Keeps env.worker.max_retries d.id

  retry_all-Keeps : (l : List DeliveryAttempt) → All R l → Keeps Q (retry_all env l)
  unfolding retry_all
  retry_all-Keeps [] h = Keeps-pure tt
  retry_all-Keeps (a ∷ rest) h =
      Keeps-bind (retry_attempt env a) (λ _. retry_all env rest) (retry_attempt-Keeps a h.0)
        (λ _. retry_all-Keeps rest h.1)

  abbrev AllDue : Result (List DeliveryAttempt) → Db → Type 0
  AllDue (ok l) db = Q db × All R l
  AllDue (err e) db = Q db

  retry_due-Triple :
      (r : Result (List DeliveryAttempt)) → Triple (AllDue r) (or_return r (retry_all env)) (λ _. Q)
  retry_due-Triple (ok l) = record { at = λ w h. (retry_all-Keeps l h.1).at w h.0 }
  retry_due-Triple (err e) = Triple-of_Keeps _ (Keeps-pure tt)

  -- One tick of each poll loop, and one round of consumeStream, keep `Q`.
  pub poll_retries-Keeps : Keeps Q (poll_retries env)
  unfolding poll_retries Deliveries.list_retryable_attempts
  poll_retries-Keeps = Keeps-of_Triple _ (
      Triple-bind AllDue (Deliveries.list_retryable_attempts env.host 100) _
        (Triple-query AllDue env.host _ (λ e db q. q)
          λ n db q. (q, All-take R 100 _ (All-order_by R _ _ (k.due (env.host.now n) db q))))
        retry_due-Triple)

  process_all-Keeps : (l : List Delivery) → Keeps Q (process_all env l)
  unfolding process_all
  process_all-Keeps [] = Keeps-pure tt
  process_all-Keeps (d ∷ rest) =
      Keeps-bind (process_delivery env d.id false) (λ _. process_all env rest)
        (process_delivery-Keeps d.id false) (λ _. process_all-Keeps rest)

  pub poll_pending-Keeps : Keeps Q (poll_pending env)
  unfolding poll_pending Deliveries.list_pending
  poll_pending-Keeps =
      Keeps-bind (Deliveries.list_pending env.host 100) _ (Keeps-query env.host _)
        λ l. Keeps-or_return l _ process_all-Keeps

  issue-Keeps : (c : Command) → Keeps Q (issue c)
  unfolding issue
  issue-Keeps c = search (keeps_rules)

  consume_parsed-Keeps : (e : Entry) (o : Option Uuid) → Keeps Q (consume_parsed env e o)
  unfolding consume_parsed
  consume_parsed-Keeps e none = issue-Keeps _
  consume_parsed-Keeps e (some id) =
      search (keeps_rules, process_delivery-Keeps, issue-Keeps) depth 10

  consume-Keeps : (e : Entry) → Keeps Q (consume env e)
  unfolding consume
  consume-Keeps e = go e.values.delivery_id
    where
      go : (o : Option String) → Keeps Q (consume_value env e o)
      go none = issue-Keeps _
      go (some text) = consume_parsed-Keeps e (env.host.uuid_parse text)

  consume_entries-Keeps : (es : List Entry) → Keeps Q (consume_entries env es)
  unfolding consume_entries
  consume_entries-Keeps [] = Keeps-pure []
  consume_entries-Keeps (e ∷ rest) = Keeps-bind (consume env e) _ (consume-Keeps e) λ here.
      Keeps-bind (consume_entries env rest) _ (consume_entries-Keeps rest)
        (λ there. Keeps-pure (here ++ there))

  consume_streams-Keeps : (l : List (List Entry)) → Keeps Q (consume_streams env l)
  unfolding consume_streams
  consume_streams-Keeps [] = Keeps-pure []
  consume_streams-Keeps (es ∷ rest) =
      Keeps-bind (consume_entries env es) _ (consume_entries-Keeps es) λ here.
        Keeps-bind (consume_streams env rest) _ (consume_streams-Keeps rest)
          (λ there. Keeps-pure (here ++ there))

  consume_reading-Keeps : (r : Reading) → Keeps Q (consume_reading env r)
  unfolding consume_reading
  consume_reading-Keeps timed_out = Keeps-pure []
  consume_reading-Keeps (broken text) = Keeps-pure []
  consume_reading-Keeps (read l) = consume_streams-Keeps l

  pub consume_round-Keeps : (r : Reading) → Keeps Q (consume_round env r)
  unfolding consume_round
  consume_round-Keeps r = search (keeps_rules, consume_reading-Keeps)
