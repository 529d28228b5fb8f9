-- ===== src/Tests/Processing.antt =====
-- One delivery and one dispatch, on the small installation.
use nitrohook.Prelude.{
  String, ◌-◌, ◌*◌, ◌^◌, ◌≡◌, ◌≢◌, refl, true, false, some, none, [], ◌∷◌, arith, inl, inr, eq_iff,
}
use Prim.Native.Nat.{min}
use nitrohook.Model.{pending, processing, completed, failed}
use nitrohook.Io.Reliable.{tick}
use nitrohook.Dispatch
use nitrohook.Worker.Process.{process_delivery, dispatch_action}
use nitrohook.Worker.Backoff.{next_retry_time, delay}
use nitrohook.Worker.Backoff.Delays.{five_minutes, delay-eq, delay-overflows, next_retry_time-none}
use nitrohook.Worker.Guards.{process_delivery-refuses, dispatch_action-once}
use nitrohook.Worker.Attempted.Recorded.{row, answered, dispatch_action-records}
use nitrohook.Worker.RollUp.Outcome.{with_status}
use nitrohook.Worker.Fates.{IsOnlyRecorded, process_delivery-IsOnlyRecorded}
use nitrohook.Worker.Fates.Runs.{not_compiled}
use nitrohook.Worker.Fates.Ends.{process_delivery-drops, process_delivery-fails}
use nitrohook.Tests.Setup.{
  env, action, delivery, source, world, world_of, recording, scripted, tried, answering,
}

active : source.mode ≢ "record"
active e = ground (arith, eq_iff "active" "record")

drop_set : ◌≢◌ {A = String} "drop" ""
drop_set e = ground (arith, eq_iff "drop" "")

bad_set : ◌≢◌ {A = String} "bad" ""
bad_set e = ground (arith, eq_iff "bad" "")

process_delivery-refuses_example :
    (process_delivery env 7 false (world "up" completed)).1 ≡ tick (world "up" completed)
process_delivery-refuses_example =
    process_delivery-refuses env 7 false (delivery completed) (world "up" completed) refl
      (λ e. cc e) (λ f. cc f)

process_delivery-IsOnlyRecorded_example :
    IsOnlyRecorded env.host.fault 7
      (delivery pending)
      (world_of recording "up" pending)
      (process_delivery env 7 false (world_of recording "up" pending)).1
process_delivery-IsOnlyRecorded_example =
    process_delivery-IsOnlyRecorded env 7 (delivery pending) recording
      (world_of recording "up" pending) refl refl refl

process_delivery-drops_example :
    (process_delivery env 7 false (world_of (scripted "drop") "up" pending)).1
    ≡ record (world_of (scripted "drop") "up" pending) {
      db = with_status 7 completed (world_of (scripted "drop") "up" pending).db;
      calls = 6;
    }
process_delivery-drops_example =
    process_delivery-drops env 7 (delivery pending) (scripted "drop")
      (world_of (scripted "drop") "up" pending) (λ n. refl) refl refl false "drop" (inl refl)
      (inr active) refl drop_set (action "up") [] refl
      (record {
        object = "{}";
        header_map = [];
        machine = "drop";
        function = "drop";
        readable = record { payload = refl; headers = refl };
        loaded = record {
          small = omega arith;
          compiled = refl;
          value = "drop";
          defined = refl;
          callable = refl;
        };
        null = refl;
      })

process_delivery-fails_example :
    (process_delivery env 7 false (world_of (scripted "bad") "up" pending)).1
    ≡ record (world_of (scripted "bad") "up" pending) {
      db = with_status 7 failed (world_of (scripted "bad") "up" pending).db;
      calls = 6;
    }
process_delivery-fails_example =
    process_delivery-fails env 7 (delivery pending) (scripted "bad")
      (world_of (scripted "bad") "up" pending) (λ n. refl) refl refl false "bad" (inl refl)
      (inr active) refl bad_set (action "up") [] refl
      (not_compiled "{}" [] (record { payload = refl; headers = refl }) (omega arith) tt)

dispatch_action-once_example :
    dispatch_action env (delivery processing) (action "down") 1 "{}" "{}" tried
    ≡ (false, tick tried)
dispatch_action-once_example =
    dispatch_action-once env (delivery processing) (action "down") 1 "{}" "{}" tried refl

dispatch_action-records_example :
    ((dispatch_action env (delivery processing) (action "up") 2 "{}" "{}" tried).1.db
      ≡ record tried.db {
        attempts =
            answered
              (row env (delivery processing) (action "up") 2 "{}" "{}" tried answering)
              (record {
                success = true;
                response_status = some 200;
                response_body = none;
                error_message = none;
              })
              none
            ∷ tried.db.attempts;
      })
    × ((dispatch_action env (delivery processing) (action "up") 2 "{}" "{}" tried).1.outbox ≡ [])
    × ((dispatch_action env (delivery processing) (action "up") 2 "{}" "{}" tried).1.published ≡ [])
    × ((dispatch_action env (delivery processing) (action "up") 2 "{}" "{}" tried).0 ≡ true)
unfolding Dispatch.get
dispatch_action-records_example =
    dispatch_action-records env (delivery processing) (action "up") 2 "{}" "{}" tried answering
      (λ n. refl) refl refl refl refl refl

-- The third attempt of the defaults: 20 seconds.
delay-eq_example : delay 0 5000000000 3 ≡ min (5000000000 * 2 ^ (3 - 1)) five_minutes
delay-eq_example = delay-eq 0 5000000000 3 (omega arith) (omega arith) (omega arith)

delay-overflows_example : delay 0 5000000000 32 ≡ 5000000000 * 2 ^ (32 - 1)
delay-overflows_example =
    delay-overflows 0 5000000000 32 (omega arith) (omega arith) (omega arith) (omega arith)

next_retry_time-none_example : (next_retry_time env 3 (world "up" pending)).0 ≡ none
next_retry_time-none_example = next_retry_time-none env 3 (world "up" pending) (omega arith)
