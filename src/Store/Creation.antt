-- ===== src/Store/Creation.antt =====
-- The row that DeliveryStore.Create makes.
use nitrohook.Prelude.{ℕ, String, ◌≡◌, refl, false, some, ◌∷◌, any, ◌⊎◌, inl, inr}
use nitrohook.Model.{Uuid, RawMessage, Delivery, pending}
use nitrohook.Io.{Db, World, Error, Result, ok, err, Host, stored}
use nitrohook.Io.Reliable.{tick}
use nitrohook.Io.Outcomes.{exec-cases}
use nitrohook.Store.Deliveries.{new_delivery, add_delivery, create}
use nitrohook.Store.Keys.{delivery_conflict, add_delivery-ok}
use nitrohook.Store.Keeping.Writes.{stored-ok}

-- A pending row of the source under the key, with the texts as their columns give them back, in
-- conflict with no row of the table.
pub record IsCreated (host : Host) (source : Uuid) (k : String) (h p : RawMessage) (db : Db)
    (d : Delivery) : Type 0 where
  pub source_id : d.source_id ≡ source
  pub key : d.idempotency_key ≡ k
  pub status : d.status ≡ pending
  pub headers : host.jsonb h ≡ some d.headers
  pub payload : host.jsonb p ≡ some d.payload
  pub fresh : any (delivery_conflict d) db.deliveries ≡ false

module _ (host : Host) (source_id : Uuid) (key : String) (headers payload : RawMessage) where
  abbrev insert : ℕ → Db → Result (Delivery × Db)
  insert n db = stored (host.jsonb headers) λ h.
      stored (host.jsonb payload)
        λ p. add_delivery (new_delivery (host.gen_uuid n) (host.now n) source_id key h p) db

  insert-ok :
      (n : ℕ) (db db' : Db) (d : Delivery)
      → insert n db ≡ ok (d, db')
      → IsCreated host source_id key headers payload db d
        × (db' ≡ record db { deliveries = d ∷ db.deliveries })
  insert-ok n db db' d e =
      let (h, eh, e₁) = stored-ok (host.jsonb headers) _ _ e in
      let (p, ep, e₂) = stored-ok (host.jsonb payload) _ _ e₁ in
      let (same, set, free) = add_delivery-ok _ d db db' e₂ in
      (
        rw same (record {
          source_id = refl;
          key = refl;
          status = refl;
          headers = eh;
          payload = ep;
          fresh = free;
        }),
        rw same set,
      )

  pub create-cases :
      (w : World)
      → ((e : Error) × (create host source_id key headers payload w ≡ (err e, tick w)))
        ⊎ ((d : Delivery) × IsCreated host source_id key headers payload w.db d
            × (create host source_id key headers payload w ≡ (
              ok d,
              record (tick w) { db = record w.db { deliveries = d ∷ w.db.deliveries } },
            )))
  unfolding create
  create-cases w = elim (exec-cases host insert w) [
    | inl (e, p) ↦ inl (e, p)
    | inr (d, db, h, p) ↦
        let (made, set) = insert-ok w.calls w.db db d h in inr (d, made, rw set at p)
  ]
