-- ===== src/Tests/Ingesting.antt =====
-- A webhook that arrives, and a request for a new source.
use nitrohook.Prelude.{String, ◌≡◌, refl, true, none, some, [], ◌∷◌, same, if◌then◌else◌}
use nitrohook.Model.{pending}
use nitrohook.Handler.Ingest.{Request, Json, text, accepted, ingest}
use nitrohook.Handler.Ingest.Taken.{IsIngested, ingest-IsIngested}
use nitrohook.Handler.Ingest.Answers.{row, ingest-queues, ingest-repeats}
use nitrohook.Handler.Sources.{Texts, CreateSourceRequest, create}
use nitrohook.Handler.Sources.Made.{IsMade, create-IsMade}
use nitrohook.Tests.Setup.{vm, host, source, world}

abbrev pub json : Json
json = record { valid = λ _. true; marshal = λ _. "{}" }

-- A request under the key.
abbrev pub request : String → Request
request key = record {
  source_slug = "orders";
  header = λ name. if same name "X-Idempotency-Key" then key else "";
  request_id = none;
  body = some "{}";
}

ingest-IsIngested_example :
    IsIngested host json
      (request "new")
      (world "up" pending)
      (ingest host json (request "new") (world "up" pending))
ingest-IsIngested_example = ingest-IsIngested host json (request "new") (world "up" pending)

ingest-queues_example : ingest host json (request "new") (world "up" pending) ≡ (
  accepted 1001 pending,
  record (world "up" pending) {
    db = record (world "up" pending).db {
      deliveries =
          row host json
            (request "new")
            source
            "{}"
            "{}"
            "{}"
            (world "up" pending)
            (λ n. refl)
            refl
            refl
            refl
            refl
            refl
            refl
          ∷ (world "up" pending).db.deliveries;
    };
    published = record { delivery_id = some "delivery"; force = none } ∷ [];
    calls = 3;
  },
)
ingest-queues_example =
    ingest-queues host json (request "new") source "{}" "{}" "{}" (world "up" pending) (λ n. refl)
      refl refl refl refl refl refl refl refl

ingest-repeats_example :
    ingest host json (request "k") (world "up" pending)
    ≡ (text 500 "failed to store delivery", record (world "up" pending) { calls = 2 })
ingest-repeats_example =
    ingest-repeats host json (request "k") source "{}" "{}" "{}" (world "up" pending) (λ n. refl)
      refl refl refl refl refl refl refl

abbrev pub texts : Texts
texts = record {
  lower = λ s. s;
  contains = λ _ _. true;
  runes = λ _. [];
  of_runes = λ _. "";
  error_text = λ _. "unique";
}

abbrev new_request : CreateSourceRequest
new_request = record { name = "New"; slug = "new"; mode = ""; script_body = some "ok" }

create-IsMade_example :
    IsMade "New" (world "up" pending) (create host vm texts (some new_request) (world "up" pending))
create-IsMade_example = create-IsMade host vm texts new_request (world "up" pending)
