-- ===== src/Web/Forward/Forwarded.antt =====
-- What ForwardDelivery leaves behind when it answers, whichever calls fail.
use nitrohook.Prelude.{
  ℕ, ◌≤◌, ◌≡◌, refl, true, false, none, some, ◌∷◌, first, ◌==◌, same, inl, inr, ◌⊎◌, Bool-cases,
  Option, String, arith, ==_iff,
}
use nitrohook.Model.{Uuid, Source, Delivery, DeliveryStatus, pending, recorded}
use nitrohook.Io.{World, Host, Message, Error, ok, err, pure, scan}
use nitrohook.Io.Reliable.{tick}
use nitrohook.Io.Outcomes.{scan-ok, query-cases, write-cases, xadd-cases}
use nitrohook.Store.Deliveries.{set_status, get_by_id, update_status}
use nitrohook.Store.Sources.{get_by_slug}
use nitrohook.Web.Pages.{Response, text, refresh}
use nitrohook.Web.Forward.{
  is_recorded, forward_delivery_to_stream, after_publish, after_status, forward_found, forward_of,
  forward_id, forward_from, forward_delivery,
}

-- The message that is published.
abbrev pub forced : Host → Uuid → Message
forced host id = record { delivery_id = some (host.uuid_string id); force = some "1" }

-- The outcomes for a delivery that is found: it is forwarded, or it was not recorded and nothing
-- changes, or a call failed, nothing was published, and the tables are as before, or the row is
-- recorded again, or, where that write fails too, it is left pending.
pub data IsForwarded (host : Host) (id : Uuid) (d : Delivery) (w : World)
    : Response × World → Type 0 where
  forwarded :
      (w' : World)
      → d.status ≡ recorded
      → w'.db ≡ set_status id pending w.db
      → w'.published ≡ forced host id ∷ w.published
      → IsForwarded host id d w (refresh, w')
  passed :
      (w' : World)
      → is_recorded d.status ≡ false
      → w'.db ≡ w.db
      → w'.published ≡ w.published
      → IsForwarded host id d w (refresh, w')
  failed_before :
      (w' : World)
      → w'.db ≡ w.db
      → w'.published ≡ w.published
      → IsForwarded host id d w (text 500 "Failed to forward delivery", w')
  taken_back :
      (w' : World)
      → w'.db ≡ set_status id recorded (set_status id pending w.db)
      → w'.published ≡ w.published
      → IsForwarded host id d w (text 500 "Failed to forward delivery", w')
  left_pending :
      (w' : World)
      → w'.db ≡ set_status id pending w.db
      → w'.published ≡ w.published
      → IsForwarded host id d w (text 500 "Failed to forward delivery", w')

module _ (host : Host) (id : Uuid) where
  update_status-cases :
      (status : DeliveryStatus) (w : World)
      → ((e : Error) × (update_status host id status w ≡ (err e, tick w)))
        ⊎ (update_status host id status w
            ≡ (ok tt, record (tick w) { db = set_status id status w.db }))
  unfolding update_status
  update_status-cases status w = write-cases host (λ _ db. (tt, set_status id status db)) w

  after_publish-IsForwarded :
      (d : Delivery) (w w₁ : World) (e : Error)
      → w₁.db ≡ set_status id pending w.db
      → w₁.published ≡ w.published
      → IsForwarded host id d w (after_publish host id (err e) w₁)
  unfolding after_publish pure
  after_publish-IsForwarded d w w₁ e made quiet = elim (update_status-cases recorded w₁) [
    | inl (x, p) ↦ rw p (left_pending (tick w₁) made quiet)
    | inr p ↦ rw p (taken_back _ (rw made refl) quiet)
  ]

  after_status-IsForwarded :
      (d : Delivery) (w w₁ : World)
      → d.status ≡ recorded
      → w₁.db ≡ set_status id pending w.db
      → w₁.published ≡ w.published
      → IsForwarded host id d w (after_status host id (ok tt) w₁)
  unfolding after_status forward_delivery_to_stream pure
  after_status-IsForwarded d w w₁ was made quiet = elim (xadd-cases host (forced host id) w₁) [
    | inl (e, p) ↦ rw p (after_publish-IsForwarded d w (tick w₁) e made quiet)
    | inr p ↦ rw p (forwarded _ was made (rw quiet refl))
  ]

  recorded_of : (s : DeliveryStatus) → is_recorded s ≡ true → s ≡ recorded
  recorded_of s h = ground arith

  pub forward_found-IsForwarded :
      (d : Delivery) (w : World) → IsForwarded host id d w (forward_found host id d w)
  unfolding forward_found after_status pure
  forward_found-IsForwarded d w = elim (Bool-cases (is_recorded d.status)) [
    | inl was ↦ elim (update_status-cases pending w) [
      | inl (e, p) ↦ rw (was, p) (failed_before (tick w) refl refl)
      | inr p ↦ rw (was, p) (after_status-IsForwarded d w _ (recorded_of d.status was) refl refl)
    ]
    | inr other ↦ rw other (passed w other refl refl)
  ]

-- The request is refused and nothing changes, or it names a source and a delivery of it.
pub data IsAnswered (host : Host) (slug path_id : String) (w : World)
    : Response × World → Type 0 where
  refused :
      (w' : World) (status : ℕ) (t : String)
      → 400 ≤ status
      → w'.db ≡ w.db
      → w'.published ≡ w.published
      → IsAnswered host slug path_id w (text status t, w')
  found :
      (src : Source) (id : Uuid) (d : Delivery) (w' : World) (out : Response × World)
      → first (λ s. same s.slug slug) w.db.sources ≡ some src
      → host.uuid_parse path_id ≡ some id
      → first (λ o. o.id == id) w.db.deliveries ≡ some d
      → d.source_id ≡ src.id
      → w'.db ≡ w.db
      → w'.published ≡ w.published
      → IsForwarded host id d w' out
      → IsAnswered host slug path_id w out

module _ (host : Host) (slug path_id : String) where
  forward_id-IsAnswered :
      (src : Source) (w : World)
      → first (λ s. same s.slug slug) w.db.sources ≡ some src
      → (o : Option Uuid) → host.uuid_parse path_id ≡ o
      → IsAnswered host slug path_id w (forward_id host src o (tick w))
  unfolding forward_id forward_of get_by_id pure
  forward_id-IsAnswered src w named none parsed = refused (tick w) _ _ (omega arith) refl refl
  forward_id-IsAnswered src w named (some id) parsed =
      elim (query-cases host (λ _ db. scan (first (λ o. o.id == id) db.deliveries)) (tick w)) [
        | inl (e, p) ↦ rw p (refused (tick (tick w)) _ _ (omega arith) refl refl)
        | inr (d, h, p) ↦ elim (Bool-cases (d.source_id == src.id)) [
          | inl own ↦
              rw (p, own)
                (found src id d (tick (tick w)) _ named parsed (scan-ok _ d h) ((==_iff _ _).0 own)
                  refl refl (forward_found-IsForwarded host id d (tick (tick w))))
          | inr other ↦ rw (p, other) (refused (tick (tick w)) _ _ (omega arith) refl refl)
        ]
      ]

  -- Whichever calls fail, ForwardDelivery either answers by an error status and changes nothing,
  -- or it has found a delivery of the source: then a recorded one becomes pending and is published
  -- with force once, another is left alone, and where a call fails the answer is the status 500,
  -- nothing is published and the row is as it was, recorded again, or left pending.
  pub forward_delivery-IsAnswered :
      (w : World) → IsAnswered host slug path_id w (forward_delivery host slug path_id w)
  unfolding forward_delivery forward_from get_by_slug pure
  forward_delivery-IsAnswered w =
      elim (query-cases host (λ _ db. scan (first (λ s. same s.slug slug) db.sources)) w) [
        | inl (e, p) ↦ rw p (refused (tick w) _ _ (omega arith) refl refl)
        | inr (src, h, p) ↦
            rw p (forward_id-IsAnswered src w (scan-ok _ src h) (host.uuid_parse path_id) refl)
      ]
