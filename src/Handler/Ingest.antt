-- ===== src/Handler/Ingest.antt =====
-- internal/handler/webhook.go: a webhook arrives, is stored, and is published for the worker.
pub mod Taken
pub mod Keeping
pub mod Answers
use nitrohook.Prelude.{
  ℕ, String, Bool, true, false, ◌≡◌, Option, none, some, List, [], ◌∷◌, ◌++◌, same, if◌then◌else◌,
}
use nitrohook.Model.{Uuid, Source, Delivery, DeliveryStatus, recorded}
use nitrohook.Io.{Message, Result, ok, err, Host, Io, ◌>>=◌, ◌>>◌, pure, call, xadd}
use nitrohook.Store.Deliveries.{create, update_status}
use nitrohook.Store.Sources.{get_by_slug}
use nitrohook.Worker.Env.{ignore}

-- The request: `header` is GetHeader, which is empty for a header that is not there, and `body`
-- is none where ReadAll fails.
pub record Request : Type 0 where
  pub source_slug : String
  pub header : String → String
  pub request_id : Option String
  pub body : Option String

-- encoding/json.
pub record Json : Type 0 where
  pub valid : String → Bool
  pub marshal : List (String × String) → String

pub data Response : Type 0 where
  text : ℕ → String → Response
  accepted : Uuid → DeliveryStatus → Response

abbrev pub sent_header : Request → String → List (String × String)
sent_header r key = if same (r.header key) "" then [] else (key, r.header key) ∷ []

abbrev pub request_id_header : Option String → List (String × String)
request_id_header none = []
request_id_header (some id) = ("X-Request-ID", id) ∷ []

unfoldable pub header_map : Request → List (String × String)
header_map r =
    sent_header r "Content-Type" ++ sent_header r "X-Webhook-ID" ++ request_id_header r.request_id

-- `if err != nil { answer; return }`
abbrev pub or_answer : {A : Type 0} → Result A → Response → (A → Io Response) → Io Response
or_answer (ok a) answer k = k a
or_answer (err e) answer k = pure answer

module _ (host : Host) (json : Json) where
  unfoldable pub publish_to_stream : Uuid → Io (Result (Unit {0}))
  publish_to_stream id =
      xadd host (record { delivery_id = some (host.uuid_string id); force = none })

  -- uuid.New().String()
  unfoldable pub new_key : Io String
  new_key = do n ← call; pure (host.uuid_string (host.gen_uuid n))

  unfoldable pub idempotency_key : Request → Io String
  idempotency_key r =
      let key = r.header "X-Idempotency-Key" in if same key "" then new_key else pure key

  unfoldable pub hand_on : Source → Delivery → Io Response
  hand_on src d =
      if same src.mode "record"
      then (do ignore (update_status host d.id recorded); pure (accepted d.id recorded))
      else (do ignore (publish_to_stream d.id); pure (accepted d.id d.status))

  unfoldable pub store_delivery : Request → Source → String → Io Response
  store_delivery r src body = do
    key ← idempotency_key r
    c ← create host src.id key (json.marshal (header_map r)) body
    or_answer c (text 500 "failed to store delivery") (hand_on src)

  unfoldable pub read_body : Request → Source → Option String → Io Response
  read_body r src none = pure (text 400 "failed to read body")
  read_body r src (some body) =
      if json.valid body then store_delivery r src body else pure (text 400 "invalid JSON payload")

  unfoldable pub ingest : Request → Io Response
  ingest r = do
    s ← get_by_slug host r.source_slug
    or_answer s (text 404 "source not found") (λ src. read_body r src r.body)
