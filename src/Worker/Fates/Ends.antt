-- ===== src/Worker/Fates/Ends.antt =====
-- The deliveries that the script of their source drops, or fails on.
use nitrohook.Prelude.{
  ℕ, suc, ◌+◌, ◌≡◌, ◌≢◌, refl, ap, ◌∙◌, String, Bool, ◌&&◌, some, List, ◌∷◌, arith, ◌==◌, first,
  select, eq_iff,
}
use nitrohook.Model.{Uuid, Source, Action, Delivery, DeliveryStatus, processing, completed}
use nitrohook.Io.{World, exec, pure}
use nitrohook.Io.Reliable.{IsReliable}
use nitrohook.Script.{Try, TransformResult, dropped}
use nitrohook.Store.Deliveries
use nitrohook.Store.Actions.{active_of}
use nitrohook.Worker.Env.{Env}
use nitrohook.Worker.Process.{script_of, run_transform, after_transform, process_delivery}
use nitrohook.Worker.Guards.{scripted-eq}
use nitrohook.Worker.RollUp.Outcome.{with_status}
use nitrohook.Worker.Fates.{with_status_twice, IsTaken, IsTaken-accepts, IsActive, IsActive-mode}
use nitrohook.Worker.Fates.Runs.{Drops, Fails, Drops-outcome, Fails-outcome}

six : (n : ℕ) → suc (5 + n) ≡ 6 + n
six n = omega arith

module _ (env : Env) (id : Uuid) (d : Delivery) (s : Source) (w : World) (rel : IsReliable env.host)
    (found : first (λ o. o.id == id) w.db.deliveries ≡ some d)
    (of_source : first (λ o. o.id == d.source_id) w.db.sources ≡ some s) (force : Bool)
    (body : String) (taken : IsTaken force d.status) (active : IsActive force s)
    (scripted : s.script_body ≡ some body) (set : body ≢ "") (a : Action) (rest : List Action)
    (busy : select (λ o. o.source_id == d.source_id && o.is_active) w.db.actions ≡ a ∷ rest) where
  -- The run of the script, after four calls to the tables.
  abbrev ran : Try (TransformResult env.vm)
  ran = run_transform env.vm (4 + w.calls) body d (a ∷ rest)

  script_set : script_of s.script_body ≡ some body
  script_set = rw scripted (ground (arith, eq_iff body ""))

  -- The delivery ends in the status, and nothing else has changed.
  abbrev ended : DeliveryStatus → World
  ended status = record w { db = with_status d.id status w.db; calls = 6 + w.calls }

  ran-eq' :
      (t : Try (TransformResult env.vm))
      → ran ≡ t
      → process_delivery env id force w
        ≡ after_transform env d
            (a ∷ rest)
            t
            (record w { db = with_status d.id processing w.db; calls = 5 + w.calls })
  unfolding active_of
  ran-eq' t e =
      scripted-eq env id d s w rel found of_source force body (IsTaken-accepts force d.status taken)
        (IsActive-mode force s active) (rw busy refl) script_set
      ∙ rw (busy, e) refl

  -- If no call fails, a delivery that is pending, or recorded and forced, of a source that has a
  -- script and an active action and does not only record, unless forced, is completed when the
  -- script gives null: no attempt is made, nothing is sent, and no column but the status is
  -- written.
  pub process_delivery-drops :
      Drops env.vm (4 + w.calls) body d (a ∷ rest)
      → (process_delivery env id force w).1 ≡ ended completed
  unfolding after_transform Deliveries.update_status exec pure
  process_delivery-drops q =
      rw
        (
          ran-eq' (Try.ok dropped) (Drops-outcome env.vm (4 + w.calls) body d (a ∷ rest) q),
          rel (5 + w.calls),
          six w.calls,
        )
        (ap (λ ds. record w { db = record w.db { deliveries = ds }; calls = 6 + w.calls })
          (with_status_twice d.id processing completed w.db.deliveries))

  -- If no call fails, a delivery that is pending, or recorded and forced, of a source that has a
  -- script and an active action and does not only record, unless forced, fails when the script
  -- fails: no attempt is made, nothing is sent, and no column but the status is written. A script
  -- fails when the payload or the headers of the delivery cannot be read, it is larger than
  -- 65536, does not compile, has no function `transform`, when this throws, runs out of time or
  -- panics, and when its result cannot be written or read back as JSON.
  pub process_delivery-fails :
      Fails env.vm (4 + w.calls) body d (a ∷ rest)
      → (process_delivery env id force w).1 ≡ ended DeliveryStatus.failed
  unfolding after_transform Deliveries.update_status exec pure
  process_delivery-fails q =
      let (x, e) = Fails-outcome env.vm (4 + w.calls) body d (a ∷ rest) q in
      rw (ran-eq' (Try.err x) e, rel (5 + w.calls), six w.calls)
        (ap (λ ds. record w { db = record w.db { deliveries = ds }; calls = 6 + w.calls })
          (with_status_twice d.id processing DeliveryStatus.failed w.db.deliveries))
