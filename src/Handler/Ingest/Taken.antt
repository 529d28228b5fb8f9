-- ===== src/Handler/Ingest/Taken.antt =====
-- What Ingest leaves behind when it answers, whichever calls fail.
use mathlib.Core.Path.{subst}
use nitrohook.Prelude.{
  ℕ, ap, ◌≤◌, String, ◌∙◌, eq_iff, true, false, ◌≡◌, refl, ◌≢◌, Option, none, some, ◌∷◌, first, any,
  same, arith, inl, inr, Bool-cases,
}
use nitrohook.Model.{Source, Delivery, pending, recorded}
use nitrohook.Io.{Db, World, Host, ok, pure, call, scan}
use nitrohook.Io.Keeps.{holds_of-ok}
use nitrohook.Io.Reliable.{tick}
use nitrohook.Io.Outcomes.{scan-ok, query-cases, exec-cases, xadd-cases}
use nitrohook.Store.Keys.{delivery_conflict}
use nitrohook.Store.Creation.{create-cases}
use nitrohook.Store.Deliveries.{set_status, update_status}
use nitrohook.Store.Sources.{get_by_slug}
use nitrohook.Handler.Ingest.{
  Request, Json, Response, text, accepted, header_map, publish_to_stream, new_key, idempotency_key,
  hand_on, store_delivery, read_body, ingest,
}

-- The tables and the stream are as they were.
pub record IsUntouched (w w' : World) : Type 0 where
  pub db : w'.db ≡ w.db
  pub published : w'.published ≡ w.published

-- From the world with the new row on: the row of a source in record mode becomes recorded and is
-- not published, unless the write fails; that of another source is published, unless this fails.
pub data IsHandedOn (host : Host) (src : Source) (d : Delivery) (w : World)
    : Response × World → Type 0 where
  marked :
      (w' : World)
      → same src.mode "record" ≡ true
      → w'.db ≡ set_status d.id recorded w.db
      → w'.published ≡ w.published
      → IsHandedOn host src d w (accepted d.id recorded, w')
  unmarked :
      (w' : World)
      → same src.mode "record" ≡ true
      → IsUntouched w w'
      → IsHandedOn host src d w (accepted d.id recorded, w')
  queued :
      (w' : World)
      → same src.mode "record" ≡ false
      → w'.db ≡ w.db
      → w'.published
        ≡ record { delivery_id = some (host.uuid_string d.id); force = none } ∷ w.published
      → IsHandedOn host src d w (accepted d.id d.status, w')
  unqueued :
      (w' : World)
      → same src.mode "record" ≡ false
      → IsUntouched w w'
      → IsHandedOn host src d w (accepted d.id d.status, w')

-- The new row: pending, of the source that the slug names, with the payload as the column gives
-- it back, under the key of the request if that has one, and in conflict with no other row.
pub record IsNew (host : Host) (json : Json) (r : Request) (db : Db) (src : Source) (d : Delivery)
    : Type 0 where
  pub found : first (λ s. same s.slug r.source_slug) db.sources ≡ some src
  pub source_id : d.source_id ≡ src.id
  pub status : d.status ≡ pending
  pub body : String
  pub read : r.body ≡ some body
  pub valid : json.valid body ≡ true
  pub payload : host.jsonb body ≡ some d.payload
  pub headers : host.jsonb (json.marshal (header_map r)) ≡ some d.headers
  pub key : r.header "X-Idempotency-Key" ≢ "" → d.idempotency_key ≡ r.header "X-Idempotency-Key"
  pub fresh : any (delivery_conflict d) db.deliveries ≡ false

pub data IsIngested (host : Host) (json : Json) (r : Request) (w : World)
    : Response × World → Type 0 where
  rejected :
      (w' : World) (status : ℕ) (t : String)
      → 400 ≤ status
      → IsUntouched w w'
      → IsIngested host json r w (text status t, w')
  taken :
      (src : Source) (d : Delivery) (w' : World) (out : Response × World)
      → IsNew host json r w.db src d
      → w'.db ≡ record w.db { deliveries = d ∷ w.db.deliveries }
      → w'.published ≡ w.published
      → IsHandedOn host src d w' out
      → IsIngested host json r w out

module _ (host : Host) (json : Json) where
  hand_on-IsHandedOn :
      (src : Source) (d : Delivery) (w : World)
      → IsHandedOn host src d w (hand_on host json src d w)
  unfolding hand_on update_status publish_to_stream pure
  hand_on-IsHandedOn src d w = elim (Bool-cases (same src.mode "record")) [
    | inl e ↦ elim (exec-cases host (λ _ db. ok (tt, set_status d.id recorded db)) w) [
      | inl (x, p) ↦ rw (e, p) (unmarked (tick w) e (record { db = refl; published = refl }))
      | inr (a, db, q, p) ↦
          rw (e, p)
            (marked _ e (holds_of-ok (λ x. x ≡ set_status d.id recorded w.db) tt a _ db refl q)
              refl)
    ]
    | inr e ↦
        elim (xadd-cases host (record { delivery_id = some (host.uuid_string d.id); force = none })
          w) [
            | inl (x, p) ↦ rw (e, p) (unqueued (tick w) e (record { db = refl; published = refl }))
            | inr p ↦ rw (e, p) (queued _ e refl refl)
          ]
  ]

  idempotency_key-eq :
      (r : Request) (w : World)
      → (key : String) × (w' : World) × (idempotency_key host json r w ≡ (key, w'))
        × IsUntouched w w'
        × (r.header "X-Idempotency-Key" ≢ "" → key ≡ r.header "X-Idempotency-Key")
  unfolding idempotency_key new_key call pure
  idempotency_key-eq r w = elim (Bool-cases (same (r.header "X-Idempotency-Key") "")) [
    | inl e ↦ (
      host.uuid_string (host.gen_uuid w.calls),
      tick w,
      rw e refl,
      record { db = refl; published = refl },
      λ given. ground (arith, eq_iff (r.header "X-Idempotency-Key") ""),
    )
    | inr e ↦ (
      r.header "X-Idempotency-Key",
      w,
      rw e refl,
      record { db = refl; published = refl },
      λ given. refl,
    )
  ]

  store_delivery-IsIngested :
      (r : Request) (src : Source) (body : String) (w₀ : World)
      → first (λ s. same s.slug r.source_slug) w₀.db.sources ≡ some src
      → r.body ≡ some body
      → json.valid body ≡ true
      → (w : World) → IsUntouched w₀ w
      → IsIngested host json r w₀ (store_delivery host json r src body w)
  unfolding store_delivery pure
  store_delivery-IsIngested r src body w₀ found read valid w as_before =
      let (key, w₁, p, as_then, given) = idempotency_key-eq r w in
      let db₁ : w₁.db ≡ w₀.db = as_then.db ∙ as_before.db in
      rw p (elim (create-cases host src.id key (json.marshal (header_map r)) body w₁) [
        | inl (e, q) ↦ rw q (
            rejected _ _ _ (omega arith)
              (record { db = db₁; published = as_then.published ∙ as_before.published }))
        | inr (d, made, q) ↦ rw q (
            taken src d _ _
              (record {
                found = found;
                source_id = made.source_id;
                status = made.status;
                body = body;
                read = read;
                valid = valid;
                payload = made.payload;
                headers = made.headers;
                key = λ h. made.key ∙ given h;
                fresh =
                    subst (λ db. any (delivery_conflict d) db.deliveries ≡ false) db₁ made.fresh;
              })
              (ap {A = Db} (λ db. record db { deliveries = d ∷ db.deliveries }) db₁)
              (as_then.published ∙ as_before.published) (hand_on-IsHandedOn src d _))
      ])

  read_body-IsIngested :
      (r : Request) (src : Source) (w₀ : World)
      → first (λ s. same s.slug r.source_slug) w₀.db.sources ≡ some src
      → (o : Option String) → r.body ≡ o
      → (w : World) → IsUntouched w₀ w
      → IsIngested host json r w₀ (read_body host json r src o w)
  unfolding read_body pure
  read_body-IsIngested r src w₀ found none read w as_before = rejected w _ _ (omega arith) as_before
  read_body-IsIngested r src w₀ found (some body) read w as_before =
      elim (Bool-cases (json.valid body)) [
        | inl e ↦ rw e (store_delivery-IsIngested r src body w₀ found read e w as_before)
        | inr e ↦ rw e (rejected w _ _ (omega arith) as_before)
      ]

  -- Whichever calls fail, a request that is answered by an error status leaves the tables and the stream
  -- as they were, and any other has its delivery in the table: a new pending row of the source
  -- that its slug names, with its body and its key, and in conflict with no row before it. In
  -- record mode nothing is published and the row becomes recorded unless that write fails; else
  -- the row stays pending and its id is published unless the publication fails.
  pub ingest-IsIngested :
      (r : Request) (w : World) → IsIngested host json r w (ingest host json r w)
  unfolding ingest get_by_slug pure
  ingest-IsIngested r w =
      elim (query-cases host (λ _ db. scan (first (λ s. same s.slug r.source_slug) db.sources)) w) [
        | inl (e, p) ↦
            rw p (rejected (tick w) _ _ (omega arith) (record { db = refl; published = refl }))
        | inr (src, h, p) ↦ rw p (
            read_body-IsIngested r src w (scan-ok _ src h) r.body refl (tick w)
              (record { db = refl; published = refl }))
      ]
