-- ===== src/Handler/Ingest/Answers.antt =====
-- What Ingest answers where no call fails.
use nitrohook.Prelude.{
  suc, ◌+◌, String, true, false, ◌≡◌, none, some, ◌∷◌, ◌==◌, first, any, same, arith, ==_refl,
  any-first, any-or_right,
}
use nitrohook.Model.{Source, Delivery, RawMessage, pending, recorded}
use nitrohook.Io.{World, Host, query, exec, xadd, pure}
use nitrohook.Io.Reliable.{IsReliable, tick}
use nitrohook.Store.Keys.{delivery_conflict}
use nitrohook.Store.Deliveries.{
  same_delivery, new_delivery, set_status, add_delivery, create, update_status,
}
use nitrohook.Store.Sources.{get_by_slug}
use nitrohook.Handler.Ingest.{
  Request, Json, text, accepted, header_map, publish_to_stream, idempotency_key, hand_on,
  store_delivery, read_body, ingest,
}

module _ (host : Host) (json : Json) (r : Request) (src : Source) (body : String) (h p : RawMessage)
    (w : World) (rel : IsReliable host)
    (found : first (λ s. same s.slug r.source_slug) w.db.sources ≡ some src)
    (read : r.body ≡ some body) (valid : json.valid body ≡ true)
    (given : same (r.header "X-Idempotency-Key") "" ≡ false)
    (headers : host.jsonb (json.marshal (header_map r)) ≡ some h)
    (payload : host.jsonb body ≡ some p) where
  -- The row for the request.
  abbrev pub row : Delivery
  row =
      new_delivery (host.gen_uuid (suc w.calls)) (host.now (suc w.calls)) src.id
        (r.header "X-Idempotency-Key") h p

  stored_at :
      any (delivery_conflict row) w.db.deliveries ≡ false
      → store_delivery host json r src body (tick w)
        ≡ hand_on host json src row (record w {
          db = record w.db { deliveries = row ∷ w.db.deliveries };
          calls = 2 + w.calls;
        })
  unfolding store_delivery idempotency_key create add_delivery exec pure
  stored_at free = ground (
    arith,
    rel (suc w.calls),
    any-first (λ s. same s.slug r.source_slug) (λ s. s.id == src.id) w.db.sources src found
        (==_refl src.id),
  )

  reached : ingest host json r w ≡ store_delivery host json r src body (tick w)
  unfolding ingest read_body get_by_slug query
  reached = ground (arith, rel w.calls)

  -- If no call fails, a valid request with a key of its own, for a source that is not in record
  -- mode, is answered with the id of its new pending delivery, and this id is published.
  pub ingest-queues :
      any (delivery_conflict row) w.db.deliveries ≡ false
      → same src.mode "record" ≡ false
      → ingest host json r w ≡ (
        accepted row.id pending,
        record w {
          db = record w.db { deliveries = row ∷ w.db.deliveries };
          published =
              record { delivery_id = some (host.uuid_string row.id); force = none } ∷ w.published;
          calls = 3 + w.calls;
        },
      )
  unfolding hand_on publish_to_stream xadd pure
  ingest-queues free active = rw (reached, stored_at free) (ground (arith, rel (2 + w.calls)))

  -- If no call fails, a valid request with a key of its own, for a source in record mode, is
  -- answered with the id of its delivery, which is recorded and is not published.
  pub ingest-records :
      any (delivery_conflict row) w.db.deliveries ≡ false
      → same src.mode "record" ≡ true
      → ingest host json r w ≡ (
        accepted row.id recorded,
        record w {
          db = set_status row.id recorded (record w.db { deliveries = row ∷ w.db.deliveries });
          calls = 3 + w.calls;
        },
      )
  unfolding hand_on update_status exec pure
  ingest-records free record_mode = rw (reached, stored_at free) (ground (arith, rel (2 + w.calls)))

  -- If no call fails, a valid request whose key a delivery of the source has already is answered
  -- by the status 500, and neither the tables nor the stream change.
  pub ingest-repeats :
      any (same_delivery src.id (r.header "X-Idempotency-Key")) w.db.deliveries ≡ true
      → ingest host json r w
        ≡ (text 500 "failed to store delivery", record w { calls = 2 + w.calls })
  unfolding store_delivery idempotency_key create add_delivery exec pure
  ingest-repeats repeated = rw reached (
      ground (
        arith,
        rel (suc w.calls),
        any-or_right (λ o. o.id == row.id) (same_delivery src.id (r.header "X-Idempotency-Key"))
            w.db.deliveries repeated,
      ))
