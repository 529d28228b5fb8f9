-- ===== src/Worker/Attempted/Fresh.antt =====
-- The ids of attempts: one dispatch leaves those that the database is still to draw unused.
use nitrohook.Prelude.{
  ℕ, String, if◌then◌else◌, ◌≤◌, ◌≡◌, refl, ◌∙◌, Bool, true, false, Option, none, some, ◌∷◌, arith,
  ◌==◌, any, any-update_where, inl, inr,
}
use nitrohook.Model.{Uuid, RawMessage, Action, Delivery, DeliveryAttempt}
use nitrohook.Io.{Db, World, Host, Io, ◌>>=◌, Result, ok, pure, exec}
use nitrohook.Io.Reliable.{tick}
use nitrohook.Io.Outcomes.{exec-cases}
use nitrohook.Io.Keeps.{holds_of-ok}
use nitrohook.Store.Keeping.Writes.{stored-ok}
use nitrohook.Dispatch
use nitrohook.Dispatch.{Dispatcher}
use nitrohook.Store.Deliveries
use nitrohook.Store.Deliveries.{
  Outcome, with_outcome, new_attempt, add_attempt, set_outcome, set_texts,
}
use nitrohook.Store.Keys.{add_attempt-ok}
use nitrohook.Worker.Env.{Env}
use nitrohook.Worker.Backoff.{next_retry_time}
use nitrohook.Worker.Process.{record_result, send_attempt, dispatch_action}

-- No attempt has an id that the database is still to draw.
abbrev pub IsFresh : Host → World → Type 0
IsFresh host w = (k : ℕ) → w.calls ≤ k → any (λ t. t.id == host.gen_uuid k) w.db.attempts ≡ false

-- The database draws no id twice.
abbrev pub DrawsOnce : Host → Type 0
DrawsOnce host = (m n : ℕ) → host.gen_uuid m ≡ host.gen_uuid n → m ≡ n

-- `m` leaves the ids unused that are still to be drawn.
pub record KeepsFresh {A : Type 0} (host : Host) (m : Io A) : Type 0 where
  pub at : (w : World) → IsFresh host w → IsFresh host (m w).1

module _ {A : Type 0} {host : Host} where
  KeepsFresh-pure : (a : A) → KeepsFresh host (pure a)
  unfolding pure
  KeepsFresh-pure a = record { at = λ w h. h }

  KeepsFresh-bind :
      {B : Type 0} (m : Io B) (f : B → Io A)
      → KeepsFresh host m
      → ((b : B) → KeepsFresh host (f b))
      → KeepsFresh host (m >>= f)
  KeepsFresh-bind m f hm hf = record { at = λ w h. (hf (m w).0).at (m w).1 (hm.at w h) }

  KeepsFresh-if :
      (b : Bool) (m n : Io A)
      → KeepsFresh host m
      → KeepsFresh host n
      → KeepsFresh host (if b then m else n)
  KeepsFresh-if true m n hm hn = hm
  KeepsFresh-if false m n hm hn = hn

  -- What leaves the ids alone and takes no call back.
  KeepsFresh-same :
      (m : Io A)
      → ((w : World) (id : Uuid)
          → any (λ t. t.id == id) (m w).1.db.attempts ≡ any (λ t. t.id == id) w.db.attempts)
      → ((w : World) → w.calls ≤ (m w).1.calls)
      → KeepsFresh host m
  KeepsFresh-same m same_ids grows = record {
    at = λ w h k le. same_ids w (host.gen_uuid k) ∙ h k (ground (arith, grows w));
  }

pub tick-IsFresh : (host : Host) (w : World) → IsFresh host w → IsFresh host (tick w)
tick-IsFresh host w h k le = h k (omega arith)

-- A statement that leaves the ids of the attempts.
KeepsFresh-exec :
    {A : Type 0} (host : Host) (write : ℕ → Db → Result (A × Db))
    → ((n : ℕ) (db db' : Db) (a : A)
        → write n db ≡ ok (a, db')
        → (id : Uuid) → any (λ t. t.id == id) db'.attempts ≡ any (λ t. t.id == id) db.attempts)
    → KeepsFresh host (exec host write)
KeepsFresh-exec host write same_ids = record {
  at = λ w h. elim (exec-cases host write w) [
    | inl (e, p) ↦ rw p (tick-IsFresh host w h)
    | inr (a, db, made, p) ↦
        rw p λ k le. same_ids w.calls w.db db a made (host.gen_uuid k) ∙ h k (omega arith)
  ];
}

module _ (env : Env) where
  open env use {host}

  next_retry_time-KeepsFresh : (n : ℕ) → KeepsFresh host (next_retry_time env n)
  unfolding next_retry_time
  next_retry_time-KeepsFresh n =
      KeepsFresh-same (next_retry_time env n) (λ w id. ground arith) (λ w. ground arith)

  update_attempt-KeepsFresh :
      (id : Uuid) (o : Outcome) → KeepsFresh host (Deliveries.update_attempt host id o)
  unfolding Deliveries.update_attempt
  update_attempt-KeepsFresh id o = KeepsFresh-exec host _ λ n db db' a e k.
      holds_of-ok (λ db'. any (λ t. t.id == k) db'.attempts ≡ any (λ t. t.id == k) db.attempts) tt a
        (set_outcome id o db) db' (any-update_where _ _ (with_outcome o) db.attempts (λ x. refl)) e

  pub set_transformed-KeepsFresh :
      (id : Uuid) (p h : RawMessage) → KeepsFresh host (Deliveries.set_transformed host id p h)
  unfolding Deliveries.set_transformed
  set_transformed-KeepsFresh id p h = KeepsFresh-exec host _ λ n db db' a e k.
      let (t, _, e₁) = stored-ok (host.jsonb p) _ _ e in
      let (s, _, e₂) = stored-ok (host.jsonb h) _ _ e₁ in
      holds_of-ok (λ db'. any (λ t. t.id == k) db'.attempts ≡ any (λ t. t.id == k) db.attempts) tt a
        (set_texts id t s db) db' refl e₂

  record_result-KeepsFresh :
      (a : DeliveryAttempt) (n : ℕ) (r : Dispatch.Result)
      → KeepsFresh host (record_result env a n r)
  unfolding record_result
  record_result-KeepsFresh a n r =
      search
        (
          KeepsFresh-pure, KeepsFresh-bind, KeepsFresh-if, update_attempt-KeepsFresh,
          next_retry_time-KeepsFresh,
        )
        depth 8

  dispatch-KeepsFresh :
      (d : Dispatcher) (a : Action) (id : String) (p h : RawMessage)
      → KeepsFresh host (d.dispatch a id p h)
  dispatch-KeepsFresh d a id p h =
      KeepsFresh-same (d.dispatch a id p h) (λ w k. rw (d.dispatch-db a id p h w) refl)
        (d.dispatch-calls a id p h)

  send_attempt-KeepsFresh :
      (a : DeliveryAttempt) (o : Option Dispatcher) (d : Delivery) (act : Action) (n : ℕ)
      (p h : RawMessage)
      → KeepsFresh host (send_attempt env a o d act n p h)
  unfolding send_attempt
  send_attempt-KeepsFresh a none d act n p h =
      KeepsFresh-bind (Deliveries.update_attempt host a.id _) _ (update_attempt-KeepsFresh a.id _)
        (λ _. KeepsFresh-pure false)
  send_attempt-KeepsFresh a (some s) d act n p h =
      KeepsFresh-bind (s.dispatch act (host.uuid_string d.id) p h) (record_result env a n)
        (dispatch-KeepsFresh s act _ p h) (record_result-KeepsFresh a n)

  -- The attempt that a call makes has the id that this call draws.
  created-IsFresh :
      (w : World) (a : DeliveryAttempt)
      → DrawsOnce host
      → a.id ≡ host.gen_uuid w.calls
      → IsFresh host w
      → IsFresh host (record (tick w) { db = record w.db { attempts = a ∷ w.db.attempts } })
  created-IsFresh w a once drawn h k le =
      let fresh = h k (omega arith) in ground (arith, once w.calls k)

  -- A dispatch leaves the ids unused that are still to be drawn.
  pub dispatch_action-IsFresh :
      DrawsOnce host
      → (d : Delivery) (act : Action) (n : ℕ) (p h : RawMessage) (w : World) → IsFresh host w
      → IsFresh host (dispatch_action env d act n p h w).1
  unfolding dispatch_action Deliveries.create_attempt pure
  dispatch_action-IsFresh once d act n p h w fresh =
      elim (exec-cases host
        (λ k. add_attempt (new_attempt (host.gen_uuid k) (host.now k) d.id act.id n)) w) [
          | inl (e, q) ↦ rw q (tick-IsFresh host w fresh)
          | inr (a, db, made, q) ↦ rw q (
              let (_, set, _) = add_attempt-ok _ a w.db db made in
              (send_attempt-KeepsFresh a (Dispatch.get env.registry act.type) d act n p h).at _ (
                rw set (
                  created-IsFresh w
                    (new_attempt (host.gen_uuid w.calls) (host.now w.calls) d.id act.id n) once refl
                    fresh)))
        ]
