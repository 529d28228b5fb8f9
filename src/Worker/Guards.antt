-- ===== src/Worker/Guards.antt =====
-- What processDelivery does before the fan-out, and when an attempt is there already.
use nitrohook.Prelude.{
  ℕ, suc, ◌+◌, ◌≡◌, ◌≢◌, refl, ◌∙◌, String, Bool, true, false, not, ◌&&◌, some, arith, ◌==◌, same,
  any, first, Option-cases, inl, inr,
}
use nitrohook.Model.{
  Uuid, RawMessage, Source, Action, Delivery, DeliveryStatus, pending, recorded, processing,
  completed,
}
use nitrohook.Io.{Db, World, query, exec, pure, call}
use nitrohook.Io.Reliable.{IsReliable, tick}
use nitrohook.Script.{Try, TransformResult}
use nitrohook.Store.Deliveries
use nitrohook.Store.Deliveries.{
  set_status, same_attempt, new_attempt, add_attempt, set_outcome, Outcome,
}
use nitrohook.Store.Sources
use nitrohook.Store.Actions
use nitrohook.Store.Actions.{active_of}
use nitrohook.Store.Keys.{add_attempt-taken}
use nitrohook.Worker.Env.{Env, is_empty}
use nitrohook.Worker.Process.{
  accepts, script_of, run_transform, dispatch_action, after_transform, fan_out, take_up,
  process_delivery,
}

-- The statuses that are not taken up.
refused-accepts :
    (force : Bool) (status : DeliveryStatus)
    → status ≢ pending
    → (force ≡ true → status ≢ recorded)
    → accepts force status ≡ false
refused-accepts force pending p r = absurd (p refl)
refused-accepts true recorded p r = absurd (r refl refl)
refused-accepts false recorded p r = refl
refused-accepts force processing p r = refl
refused-accepts force completed p r = refl
refused-accepts force DeliveryStatus.failed p r = refl

-- A delivery that is not pending is left alone, unless it is recorded and processing is forced:
-- nothing is written or sent, whether the one read fails or not.
pub process_delivery-refuses :
    (env : Env) (id : Uuid) (force : Bool) (d : Delivery) (w : World)
    → first (λ o. o.id == id) w.db.deliveries ≡ some d
    → d.status ≢ pending
    → (force ≡ true → d.status ≢ recorded)
    → (process_delivery env id force w).1 ≡ tick w
unfolding process_delivery Deliveries.get_by_id query pure
process_delivery-refuses env id force d w found settled unforced =
    let refused : accepts force d.status ≡ false =
      refused-accepts force d.status settled unforced in
    elim (Option-cases (env.host.fault w.calls)) [
      | inl fine ↦ ground arith
      | inr (text, broken) ↦ ground arith
    ]

module _ (env : Env) (id : Uuid) (d : Delivery) (s : Source) (w : World) (rel : IsReliable env.host)
    (found : first (λ o. o.id == id) w.db.deliveries ≡ some d)
    (of_source : first (λ o. o.id == d.source_id) w.db.sources ≡ some s) where
  -- A delivery that is accepted, of a source that does not only record, is taken up.
  pub taken_up-eq :
      (force : Bool)
      → accepts force d.status ≡ true
      → (not force && same s.mode "record") ≡ false
      → process_delivery env id force w ≡ take_up env d s (tick (tick w))
  unfolding process_delivery Deliveries.get_by_id Sources.get_by_id query pure
  taken_up-eq force accepted active = ground (arith, rel w.calls, rel (suc w.calls))

  -- The tables while the scripts run, and the number of the script's run.
  abbrev pub at_work : Db
  at_work = set_status d.id processing w.db

  abbrev pub script_call : ℕ
  script_call = 4 + w.calls

  -- Up to the fan-out: the delivery is processing, and nothing else has changed.
  pub fanned_out-eq :
      (force : Bool)
      → accepts force d.status ≡ true
      → (not force && same s.mode "record") ≡ false
      → is_empty (active_of d.source_id w.db) ≡ false
      → process_delivery env id force w
        ≡ fan_out env d
            (active_of d.source_id w.db)
            (script_of s.script_body)
            (record w { db = at_work; calls = 4 + w.calls })
  unfolding take_up Deliveries.update_status Actions.list_active_by_source query exec pure call
  fanned_out-eq force accepted active busy =
      taken_up-eq force accepted active ∙ ground (arith, rel (2 + w.calls), rel (3 + w.calls))

  -- Up to the script of the source: the delivery is processing, and nothing else has changed.
  module _ (force : Bool) (body : String) (accepted : accepts force d.status ≡ true)
      (active : (not force && same s.mode "record") ≡ false)
      (busy : is_empty (active_of d.source_id w.db) ≡ false)
      (scripted : script_of s.script_body ≡ some body) where
    abbrev pub outcome : Try (TransformResult env.vm)
    outcome = run_transform env.vm script_call body d (active_of d.source_id w.db)

    pub scripted-eq :
        process_delivery env id force w
        ≡ after_transform env d
            (active_of d.source_id w.db)
            outcome
            (record w { db = at_work; calls = 5 + w.calls })
    unfolding take_up fan_out Deliveries.update_status Actions.list_active_by_source query exec pure
        call
    scripted-eq =
        taken_up-eq force accepted active ∙ ground (arith, rel (2 + w.calls), rel (3 + w.calls))

-- An attempt that is there already, for the delivery, the action and the number, is not made
-- again: whether the insertion fails or is refused, nothing is sent and no table changes.
pub dispatch_action-once :
    (env : Env) (d : Delivery) (act : Action) (n : ℕ) (p h : RawMessage) (w : World)
    → any (same_attempt d.id act.id n) w.db.attempts ≡ true
    → dispatch_action env d act n p h w ≡ (false, tick w)
unfolding dispatch_action Deliveries.create_attempt exec pure
dispatch_action-once env d act n p h w taken = elim (Option-cases (env.host.fault w.calls)) [
  | inl fine ↦ rw (
    fine,
    add_attempt-taken (new_attempt (env.host.gen_uuid w.calls) (env.host.now w.calls) d.id act.id n)
        w.db taken,
  )
  | inr (text, broken) ↦ rw broken
]
