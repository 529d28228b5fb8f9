-- ===== src/Worker/Attempted/Plan.antt =====
-- What a delivery is to be sent to, and that processDelivery sees to all of it.
use nitrohook.Prelude.{
  any-first, ℕ, ◌+◌, ◌≡◌, refl, String, Bool, true, false, not, ◌&&◌, Option, none, some, List, [],
  ◌∷◌, arith, ◌==◌, same, ==_refl, any, first, select, All, All-map, All-select, any-cons, inl, inr,
}
use mathlib.Core.Path.{subst}
use nitrohook.Model.{processing, Uuid, RawMessage, Source, Action, Delivery}
use nitrohook.Io.{Db, World, call}
use nitrohook.Io.Reliable.{IsReliable, tick}
use nitrohook.Script.{Vm, ActionRef, Try, TransformResult, dropped, transformed}
use nitrohook.Store.Deliveries
use nitrohook.Store.Actions.{active_of}
use nitrohook.Store.References.{has_action}
use nitrohook.Worker.Env.{Env, is_empty}
use nitrohook.Worker.Process.{
  accepts, script_of, run_transform, filter_actions, dispatch_all, dispatch_and_roll_up,
  dispatch_kept, use_transformed, after_transform, fan_out, process_delivery,
}
use nitrohook.Worker.Keeps.{roll_up-Keeps}
use nitrohook.Worker.Dispatching.{worker-Keeps}
use nitrohook.Worker.Guards.{fanned_out-eq, at_work}
use nitrohook.Worker.Attempted.Fresh.{IsFresh, DrawsOnce, tick-IsFresh, set_transformed-KeepsFresh}
use nitrohook.Worker.Attempted.Loop.{
  HasRows, IsSettled, first_keeps, rows_keeps, dispatch_all-IsSettled,
}

-- A payload and headers, and the actions that they go to.
abbrev pub Plan : Type 0
Plan = RawMessage × RawMessage × List Action

-- Both texts, if both can be marshalled.
unfoldable pub plan_of : Option RawMessage → Option RawMessage → List Action → Option Plan
plan_of (some p) (some h) actions = some (p, h, actions)
plan_of _ _ actions = none

module _ (vm : Vm) where
  -- The script of a source that succeeds decides on the texts, and on the actions by their ids.
  unfoldable pub rewritten : List Action → Try (TransformResult vm) → Option Plan
  unfolding plan_of
  rewritten actions (Try.ok (transformed payload headers kept)) =
      plan_of (vm.marshal_object payload) (vm.marshal_headers headers)
        (select (λ a. any (λ k. k.id == a.id) kept) actions)
  rewritten actions _ = none

  -- Without a script the delivery goes as it came to all active actions of its source.
  unfoldable pub planned : ℕ → Option String → Delivery → List Action → Option Plan
  unfolding rewritten
  planned n script d [] = none
  planned n none d (a ∷ rest) = some (d.payload, d.headers, a ∷ rest)
  planned n (some body) d (a ∷ rest) = rewritten (a ∷ rest) (run_transform vm n body d (a ∷ rest))

All-present : (actions : List Action) → All (λ a. has_action a.id actions ≡ true) actions
All-present [] = tt
All-present (a ∷ rest) =
    (ground arith, All-map _ _ (λ b h. any-cons _ a rest h) rest (All-present rest))

planned-busy :
    (vm : Vm) (n : ℕ) (script : Option String) (d : Delivery) (actions : List Action) (q : Plan)
    → planned vm n script d actions ≡ some q
    → is_empty actions ≡ false
unfolding planned
planned-busy vm n script d [] q e = cc
planned-busy vm n script d (a ∷ rest) q e = refl

some_inj : {A : Type 0} (a b : A) → ◌≡◌ {A = Option A} (some a) (some b) → a ≡ b
some_inj a b e = cc

-- No action is kept.
select-none : (actions : List Action) → select (λ a. false) actions ≡ []
select-none [] = refl
select-none (a ∷ rest) = select-none rest

-- All of a plan is seen to.
abbrev pub IsCarriedOut : Env → Delivery → Plan → Db → Type 0
IsCarriedOut env d q db = All (λ a. IsSettled env d q.0 q.1 a db) q.2

module _ (env : Env) (rel : IsReliable env.host) (once : DrawsOnce env.host) (d : Delivery) where
  open env use {host, vm, worker}

  dispatch_and_roll_up-IsCarriedOut :
      (p h : RawMessage) (actions : List Action) (w : World)
      → IsFresh host w
      → HasRows d.id actions w.db
      → IsCarriedOut env d (p, h, actions) (dispatch_and_roll_up env d p h actions w).1.db
  unfolding dispatch_and_roll_up
  dispatch_and_roll_up-IsCarriedOut p h [] w fresh there = tt
  dispatch_and_roll_up-IsCarriedOut p h (a ∷ rest) w fresh there =
      let v : World = (dispatch_all env d p h (a ∷ rest) w).1 in
      All-map (λ b. IsSettled env d p h b v.db) _
        (λ b settled. elim settled [
          | inl first ↦ inl (
              (roll_up-Keeps (worker-Keeps env (first_keeps env d.id b.id)) worker.max_retries
                  d.id).at
                v first)
          | inr skipped ↦ inr skipped
        ])
        (a ∷ rest) (dispatch_all-IsSettled env rel once d p h (a ∷ rest) w fresh there)

  HasRows-select :
      (p : Action → Bool) (actions : List Action) (db : Db)
      → HasRows d.id actions db
      → HasRows d.id (select p actions) db
  HasRows-select p actions db there = (there.0, All-select _ p actions there.1)

  dispatch_kept-IsCarriedOut :
      (p h : RawMessage) (actions : List Action) (kept : List ActionRef) (w : World)
      → IsFresh host w
      → HasRows d.id actions w.db
      → IsCarriedOut env d
          (p, h, select (λ a. any (λ k. k.id == a.id) kept) actions)
          (dispatch_kept env d actions p h kept w).1.db
  unfolding dispatch_kept filter_actions
  dispatch_kept-IsCarriedOut p h actions [] w fresh there = rw (select-none actions) tt
  dispatch_kept-IsCarriedOut p h actions (k ∷ kept) w fresh there =
      dispatch_and_roll_up-IsCarriedOut p h _ w fresh (HasRows-select _ actions w.db there)

  use_transformed-IsCarriedOut :
      (op oh : Option RawMessage) (actions : List Action) (kept : List ActionRef) (q : Plan)
      (w : World)
      → IsFresh host w
      → HasRows d.id actions w.db
      → plan_of op oh (select (λ a. any (λ k. k.id == a.id) kept) actions) ≡ some q
      → IsCarriedOut env d q (use_transformed env d actions kept op oh w).1.db
  unfolding use_transformed plan_of
  use_transformed-IsCarriedOut none oh actions kept q w fresh there e = cc
  use_transformed-IsCarriedOut (some p) none actions kept q w fresh there e = cc
  use_transformed-IsCarriedOut (some p) (some h) actions kept q w fresh there e =
      let v : World = (Deliveries.set_transformed host d.id p h w).1 in
      subst (λ q. IsCarriedOut env d q (dispatch_kept env d actions p h kept v).1.db)
        (some_inj _ q e)
        (dispatch_kept-IsCarriedOut p h actions kept v
          ((set_transformed-KeepsFresh env d.id p h).at w fresh)
          (((rows_keeps env d.id actions).transformed d.id p h).at w there))

  after_transform-IsCarriedOut :
      (t : Try (TransformResult vm)) (actions : List Action) (q : Plan) (w : World)
      → IsFresh host w
      → HasRows d.id actions w.db
      → rewritten vm actions t ≡ some q
      → IsCarriedOut env d q (after_transform env d actions t w).1.db
  unfolding after_transform rewritten
  after_transform-IsCarriedOut (Try.err x) actions q w fresh there e = cc
  after_transform-IsCarriedOut (Try.ok dropped) actions q w fresh there e = cc
  after_transform-IsCarriedOut (Try.ok (transformed payload headers kept)) actions q w fresh there
        e =
      use_transformed-IsCarriedOut (vm.marshal_object payload) (vm.marshal_headers headers) actions
        kept q w fresh there e

  fan_out-IsCarriedOut :
      (script : Option String) (actions : List Action) (q : Plan) (w : World)
      → IsFresh host w
      → HasRows d.id actions w.db
      → planned vm w.calls script d actions ≡ some q
      → IsCarriedOut env d q (fan_out env d actions script w).1.db
  unfolding fan_out planned call
  fan_out-IsCarriedOut script [] q w fresh there e = cc
  fan_out-IsCarriedOut none (a ∷ rest) q w fresh there e =
      subst
        (λ q.
          IsCarriedOut env d q (dispatch_and_roll_up env d d.payload d.headers (a ∷ rest) w).1.db)
        (some_inj _ q e)
        (dispatch_and_roll_up-IsCarriedOut d.payload d.headers (a ∷ rest) w fresh there)
  fan_out-IsCarriedOut (some body) (a ∷ rest) q w fresh there e =
      after_transform-IsCarriedOut (run_transform vm w.calls body d (a ∷ rest)) (a ∷ rest) q
        (tick w) (tick-IsFresh host w fresh) there e

  -- If no call fails and no id is drawn twice, a delivery that is taken up reaches all the actions
  -- that it is to go to, those of its source that are active and that the script of the source
  -- keeps: at the end each of them has a first attempt, or its own script has skipped the delivery.
  pub process_delivery-IsCarriedOut :
      (id : Uuid) (force : Bool) (s : Source) (q : Plan) (w : World)
      → IsFresh host w
      → first (λ o. o.id == id) w.db.deliveries ≡ some d
      → first (λ o. o.id == d.source_id) w.db.sources ≡ some s
      → accepts force d.status ≡ true
      → (not force && same s.mode "record") ≡ false
      → planned vm (4 + w.calls) (script_of s.script_body) d (active_of d.source_id w.db) ≡ some q
      → IsCarriedOut env d q (process_delivery env id force w).1.db
  unfolding active_of
  process_delivery-IsCarriedOut id force s q w fresh found of_source accepted active plan =
      let actions : List Action = active_of d.source_id w.db in
      let busy : is_empty actions ≡ false =
        planned-busy vm (4 + w.calls) (script_of s.script_body) d actions q plan in
      rw (fanned_out-eq env id d s w rel found of_source force accepted active busy) (
        fan_out-IsCarriedOut (script_of s.script_body) actions q
          (record w { db = at_work env id d s w rel found of_source; calls = 4 + w.calls })
          (λ k le. fresh k (omega arith))
          ((rows_keeps env d.id actions).status d.id processing w.db (
            any-first _ (λ o. o.id == d.id) w.db.deliveries d found (==_refl d.id),
            All-select _ _ w.db.actions (All-present w.db.actions),
          ))
          plan)
