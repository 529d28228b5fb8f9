-- ===== src/Worker/Fates.antt =====
-- The ends of processDelivery before the fan-out: what a source that only records does.
pub mod Runs
pub mod Ends
use nitrohook.Prelude.{
  ℕ, suc, ◌+◌, ◌<◌, ◌≡◌, ◌≢◌, refl, sym, ap, ◌∙◌, ◌⊎◌, inl, inr, String, Bool, true, false, not,
  ◌&&◌, Option, some, List, [], ◌∷◌, arith, ◌==◌, same, first, update_where, eq_iff, Option-cases,
  Bool-cases,
}
use nitrohook.Model.{
  Uuid, Source, Delivery, DeliveryStatus, pending, processing, completed, recorded,
}
use nitrohook.Io.{World, query, exec, pure}
use nitrohook.Io.Reliable.{tick}
use nitrohook.Store.Deliveries
use nitrohook.Store.Sources
use nitrohook.Worker.Env.{Env}
use nitrohook.Worker.RollUp.Outcome.{with_status}
use nitrohook.Worker.Process.{accepts, process_delivery}

-- The last of two writes counts.
pub with_status_twice :
    (id : Uuid) (a b : DeliveryStatus) (ds : List Delivery)
    → update_where
        (λ o. o.id == id)
        (λ o. record o { status = b })
        (update_where (λ o. o.id == id) (λ o. record o { status = a }) ds)
      ≡ update_where (λ o. o.id == id) (λ o. record o { status = b }) ds
with_status_twice id a b [] = refl
with_status_twice id a b (o ∷ rest) = elim (Bool-cases (o.id == id)) [
  | inl e ↦ rw (e, with_status_twice id a b rest) (rw e refl)
  | inr e ↦ rw (e, with_status_twice id a b rest) (rw e refl)
]

-- The delivery is pending, or it is recorded and processing is forced.
abbrev pub IsTaken : Bool → DeliveryStatus → Type 0
IsTaken force status = (status ≡ pending) ⊎ ((force ≡ true) × (status ≡ recorded))

pub IsTaken-accepts :
    (force : Bool) (status : DeliveryStatus) → IsTaken force status → accepts force status ≡ true
IsTaken-accepts force status (inl e) = rw e refl
IsTaken-accepts force status (inr (f, e)) = rw (e, f) refl

-- Processing is forced, or the source does not only record.
abbrev pub IsActive : Bool → Source → Type 0
IsActive force s = (force ≡ true) ⊎ (s.mode ≢ "record")

pub IsActive-mode :
    (force : Bool) (s : Source) → IsActive force s → (not force && same s.mode "record") ≡ false
IsActive-mode force s (inl f) = rw f refl
IsActive-mode force s (inr m) = ground (arith, eq_iff s.mode "record")

-- What is left of a delivery of a source that only records: nothing is sent or published, and a
-- pending delivery becomes recorded, unless one of the three calls fails; then nothing is written.
pub record IsOnlyRecorded (fault : ℕ → Option String) (id : Uuid) (d : Delivery) (w w' : World)
    : Type 0 where
  pub outbox : w'.outbox ≡ w.outbox
  pub published : w'.published ≡ w.published
  pub db :
      ((d.status ≡ pending) × (w'.db ≡ with_status id recorded w.db))
      ⊎ ((w'.db ≡ w.db)
          × ((d.status ≢ pending)
              ⊎ ((k : ℕ) × (t : String) × (k < 3) × (fault (k + w.calls) ≡ some t))))

untouched :
    (fault : ℕ → Option String) (id : Uuid) (d : Delivery) (w w' : World)
    → w'.outbox ≡ w.outbox
    → w'.published ≡ w.published
    → w'.db ≡ w.db
    → (d.status ≢ pending) ⊎ ((k : ℕ) × (t : String) × (k < 3) × (fault (k + w.calls) ≡ some t))
    → IsOnlyRecorded fault id d w w'
untouched fault id d w w' o p e why = record { outbox = o; published = p; db = inr (e, why) }

pending-cases :
    (s : DeliveryStatus)
    → ((s ≡ pending) × (accepts false s ≡ true)) ⊎ ((s ≢ pending) × (accepts false s ≡ false))
pending-cases pending = inl (refl, refl)
pending-cases processing = inr (λ e. cc e, refl)
pending-cases completed = inr (λ e. cc e, refl)
pending-cases recorded = inr (λ e. cc e, refl)
pending-cases DeliveryStatus.failed = inr (λ e. cc e, refl)

-- Whichever calls fail, a delivery of a source in record mode that is not forced is not dispatched:
-- no attempt is made and nothing is sent. If it is pending it becomes recorded, unless a call has
-- failed, and no other column is written; if it is not pending no table changes.
pub process_delivery-IsOnlyRecorded :
    (env : Env) (id : Uuid) (d : Delivery) (s : Source) (w : World)
    → first (λ o. o.id == id) w.db.deliveries ≡ some d
    → first (λ o. o.id == d.source_id) w.db.sources ≡ some s
    → s.mode ≡ "record"
    → IsOnlyRecorded env.host.fault id d w (process_delivery env id false w).1
unfolding process_delivery Deliveries.get_by_id Sources.get_by_id Deliveries.update_status query
    exec pure
process_delivery-IsOnlyRecorded env id d s w found of_source mode =
    let fault : ℕ → Option String = env.host.fault in
    let at_call : (k m : ℕ) (t : String)
        → k < 3
        → m ≡ k + w.calls
        → fault m ≡ some t
        → (d.status ≢ pending)
          ⊎ ((k : ℕ) × (t : String) × (k < 3) × (fault (k + w.calls) ≡ some t)) =
      λ k m t less e broken. inr (k, t, less, ap fault (sym e) ∙ broken) in
    elim (Option-cases (fault w.calls)) [
      | inr (t, broken) ↦
          let why = at_call 0 w.calls t (omega arith) (omega arith) broken in
          rw broken (untouched fault id d w (tick w) refl refl refl why)
      | inl fine ↦
          rw (fine, found)
            (elim (pending-cases d.status) [
              | inr (settled, skipped) ↦
                  rw skipped (untouched fault id d w (tick w) refl refl refl (inl settled))
              | inl (waits, accepted) ↦ rw accepted (elim (Option-cases (fault (suc w.calls))) [
                | inr (t, broken) ↦
                    let why = at_call 1 (suc w.calls) t (omega arith) (omega arith) broken in
                    rw broken (untouched fault id d w (tick (tick w)) refl refl refl why)
                | inl fine₁ ↦
                    rw (fine₁, of_source, mode)
                      (elim (Option-cases (fault (suc (suc w.calls)))) [
                        | inr (t, broken) ↦
                            let why =
                              at_call 2 (suc (suc w.calls)) t (omega arith) (omega arith) broken in
                            rw broken
                              (untouched fault id d w (tick (tick (tick w))) refl refl refl why)
                        | inl fine₂ ↦
                            rw fine₂
                              (record { outbox = refl; published = refl; db = inl (waits, refl) })
                      ])
              ])
            ])
    ]
