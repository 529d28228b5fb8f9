-- ===== src/Tests/Fanning.antt =====
-- The fan-out of one delivery, on the small installation.
use nitrohook.Prelude.{List, if◌then◌else◌, same, none, ◌≡◌, refl, false, some, [], ◌∷◌, arith}
use nitrohook.Model.{pending, processing}
use nitrohook.Store.Actions.{active_of}
use nitrohook.Worker.Process.{process_delivery}
use nitrohook.Worker.Attempted.Plan.{planned, IsCarriedOut, process_delivery-IsCarriedOut}
use nitrohook.Worker.Env.{Env}
use nitrohook.Worker.Stream.{Reading, read, timed_out, consume_round, consume_stream}
use nitrohook.Worker.Stream.Acknowledged.{entries, IsServed, consume_stream-IsServed}
use nitrohook.Handler.Ingest.{ingest}
use nitrohook.Server.Delivered.{entry, ingest-consume_round}
use nitrohook.Tests.Ingesting.{json, request}
use nitrohook.Worker.Retry.{retry_attempt}
use nitrohook.Worker.Attempted.Retried.{IsRetried, IsDone, retry_attempt-IsRetried}
use nitrohook.Tests.Setup.{first_try, tried, host, env, action, source, delivery, world}

process_delivery-IsCarriedOut_example :
    IsCarriedOut env
      (delivery pending)
      ("{}", "{}", action "up" ∷ [])
      (process_delivery env 7 false (world "up" pending)).1.db
unfolding planned active_of
process_delivery-IsCarriedOut_example =
    process_delivery-IsCarriedOut env (λ n. refl) (λ m n e. ground arith) (delivery pending) 7 false
      source ("{}", "{}", action "up" ∷ []) (world "up" pending) (λ k le. refl) refl refl refl refl
      refl

-- The host reads the text of the new delivery's id back.
abbrev reading_env : Env
reading_env = record env {
  host = record host { uuid_parse = λ s. if same s "delivery" then some 1001 else none };
}

ingest-consume_round_example :
    ((ingest reading_env.host json (request "new") (world "up" pending)).1.published
      ≡ record { delivery_id = some "delivery"; force = none } ∷ [])
    × IsCarriedOut reading_env
        (record (delivery pending) { id = 1001; idempotency_key = "new"; received_at = 6 })
        ("{}", "{}", action "up" ∷ [])
        (consume_round reading_env
          (read ((entry "1-0" (record { delivery_id = some "delivery"; force = none }) ∷ []) ∷ []))
          (ingest reading_env.host json (request "new") (world "up" pending)).1).1.db
unfolding planned active_of
ingest-consume_round_example =
    ingest-consume_round reading_env json (request "new") source "{}" "{}" "{}" (world "up" pending)
      (λ n. refl) (λ m n e. ground arith) refl refl refl refl refl refl refl "1-0"
      ("{}", "{}", action "up" ∷ []) refl refl refl (λ k le. refl) refl

-- An entry that names a delivery, and one that does not.
abbrev readings : List Reading
readings =
    timed_out
    ∷ read (
        (entry "1-0" (record { delivery_id = some "delivery"; force = none })
          ∷ entry "2-0" (record { delivery_id = none; force = none })
          ∷ [])
        ∷ [])
    ∷ []

consume_stream-IsServed_example :
    IsServed env (entries readings) (consume_stream env readings (world "up" pending)).0
consume_stream-IsServed_example = consume_stream-IsServed env readings (world "up" pending)

retry_attempt-IsRetried_example :
    IsRetried env 2 (delivery processing) (action "down") 2 (retry_attempt env first_try tried).1.db
    × IsDone 9 (retry_attempt env first_try tried).1.db
retry_attempt-IsRetried_example =
    retry_attempt-IsRetried env (λ n. refl) (λ m n e. ground arith) first_try (delivery processing)
      (action "down") tried refl refl (λ k le. ground arith)
