-- ===== src/Server/Delivered.antt =====
-- From the webhook that arrives to the attempts to send it: Ingest, and then consumeStream.
use nitrohook.Prelude.{
  ℕ, suc, ◌+◌, String, ◌≡◌, refl, true, false, none, some, [], ◌∷◌, ◌==◌, first, any, same, arith,
  ==_refl,
}
use nitrohook.Model.{Delivery, Source, RawMessage}
use nitrohook.Io.{World, Message, call, pure}
use nitrohook.Io.Reliable.{IsReliable}
use nitrohook.Store.Keys.{delivery_conflict}
use nitrohook.Store.Actions.{active_of}
use nitrohook.Worker.Env.{Env}
use nitrohook.Worker.Process.{script_of, process_delivery}
use nitrohook.Worker.Stream.{
  issue, Entry, read, consume_parsed, consume_value, consume, consume_entries, consume_streams,
  consume_reading, consume_round,
}
use nitrohook.Worker.Attempted.Fresh.{IsFresh, DrawsOnce}
use nitrohook.Worker.Attempted.Plan.{Plan, planned, IsCarriedOut, process_delivery-IsCarriedOut}
use nitrohook.Handler.Ingest.{Request, Json, header_map, ingest}
use nitrohook.Handler.Ingest.Answers.{row, ingest-queues}

-- The entry that hands a message over.
abbrev pub entry : String → Message → Entry
entry id m = record { id = id; values = m }

module _ (env : Env) where
  open env use {host}

  -- A round that reads one entry which names a delivery processes this delivery.
  consume_round-one :
      (eid text : String) (id : _) (w : World)
      → host.uuid_parse text ≡ some id
      → (consume_round env
          (read ((entry eid (record { delivery_id = some text; force = none }) ∷ []) ∷ []))
          w).1.db
        ≡ (process_delivery env id false (call w).1).1.db
  unfolding consume_round consume_reading consume_streams consume_entries consume consume_value
      consume_parsed issue call pure
  consume_round-one eid text id w parsed = rw parsed refl

-- The calls up to the script of the source.
shift : (n : ℕ) → 4 + suc (3 + n) ≡ 8 + n
shift n = omega arith

module _ (env : Env) (json : Json) (r : Request) (src : Source) (body : String) (h p : RawMessage)
    (w : World) (rel : IsReliable env.host) (once : DrawsOnce env.host)
    (found : first (λ s. same s.slug r.source_slug) w.db.sources ≡ some src)
    (keyed : first (λ s. s.id == src.id) w.db.sources ≡ some src) (read_all : r.body ≡ some body)
    (valid : json.valid body ≡ true) (given : same (r.header "X-Idempotency-Key") "" ≡ false)
    (headers : env.host.jsonb (json.marshal (header_map r)) ≡ some h)
    (payload : env.host.jsonb body ≡ some p) where
  -- The delivery of the request, and its message.
  abbrev pub taken : Delivery
  taken = row env.host json r src body h p w rel found read_all valid given headers payload

  abbrev pub message : Message
  message = record { delivery_id = some (env.host.uuid_string taken.id); force = none }

  -- If no call fails, no id is drawn twice, a UUID is read back as it was written, and the source
  -- is active, then the webhook of a valid request with a key of its own is published, and the
  -- round of a consumer that reads this message carries the delivery out: each active action of the
  -- source that its script keeps has a first attempt, or its own script has skipped the delivery.
  pub ingest-consume_round :
      (eid : String) (q : Plan)
      → any (delivery_conflict taken) w.db.deliveries ≡ false
      → same src.mode "record" ≡ false
      → env.host.uuid_parse (env.host.uuid_string taken.id) ≡ some taken.id
      → IsFresh env.host w
      → planned env.vm (8 + w.calls) (script_of src.script_body) taken (active_of src.id w.db)
        ≡ some q
      → ((ingest env.host json r w).1.published ≡ message ∷ w.published)
        × IsCarriedOut env taken q
            (consume_round env
              (read ((entry eid message ∷ []) ∷ []))
              (ingest env.host json r w).1).1.db
  unfolding call active_of
  ingest-consume_round eid q free active back fresh plan =
      rw
        (
          ingest-queues env.host json r src body h p w rel found read_all valid given headers
              payload free active,
          consume_round-one env eid (env.host.uuid_string taken.id) taken.id _ back,
        )
        (
          refl,
          process_delivery-IsCarriedOut env rel once taken taken.id false src q _
              (λ k le. fresh k (omega arith)) (rw (==_refl taken.id) refl) keyed refl active
              (rw (shift w.calls) plan),
        )
