-- ===== src/Worker/Jobs.antt =====
-- The jobs of a worker in any order: rounds of consumeStream, and ticks of the two poll loops.
use nitrohook.Prelude.{List, [], ◌∷◌}
use nitrohook.Io.{Db, World, Io, ◌>>◌, pure}
use nitrohook.Io.Keeps.{Keeps, Keeps-pure, Keeps-bind}
use nitrohook.Model.{DeliveryAttempt}
use nitrohook.Store.Keys.{HasKeys}
use nitrohook.Worker.Env.{Env, ignore}
use nitrohook.Worker.Stream.{Reading, consume_round}
use nitrohook.Worker.Retry.{poll_pending, poll_retries}
use nitrohook.Worker.Keeps.{
  WorkerKeeps, consume_round-Keeps, poll_pending-Keeps, poll_retries-Keeps,
}
use nitrohook.Worker.Dispatching.{worker-Keeps}
use nitrohook.Store.Keys.Kept.{attempts-HasKeys}
use nitrohook.Worker.Budget.{IsBudgeted}
use nitrohook.Worker.Budget.Kept.{worker-IsBudgeted}

-- What the goroutines that Start launches do between two waits.
pub data Job : Type 0 where
  stream_round : Reading → Job
  pending_tick retries_tick : Job

module _ (env : Env) where
  unfoldable pub run_job : Job → Io (Unit {0})
  run_job (stream_round r) = ignore (consume_round env r)
  run_job pending_tick = poll_pending env
  run_job retries_tick = poll_retries env

  unfoldable pub run_jobs : List Job → Io (Unit {0})
  unfolding run_job
  run_jobs [] = pure tt
  run_jobs (j ∷ rest) = do run_job j; run_jobs rest

module _ {env : Env} {R : DeliveryAttempt → Type 0} {Q : Db → Type 0}
    (k : WorkerKeeps env R Q) where
  pub run_job-Keeps : (j : Job) → Keeps Q (run_job env j)
  unfolding run_job
  run_job-Keeps (stream_round r) =
      Keeps-bind (consume_round env r) _ (consume_round-Keeps k r) (λ _. Keeps-pure tt)
  run_job-Keeps pending_tick = poll_pending-Keeps k
  run_job-Keeps retries_tick = poll_retries-Keeps k

  run_jobs-Keeps : (jobs : List Job) → Keeps Q (run_jobs env jobs)
  unfolding run_jobs
  run_jobs-Keeps [] = Keeps-pure tt
  run_jobs-Keeps (j ∷ rest) =
      Keeps-bind (run_job env j) (λ _. run_jobs env rest) (run_job-Keeps j)
        (λ _. run_jobs-Keeps rest)

-- Whatever a worker does, failing calls included, no two sources share an id or a slug, no two
-- actions an id, no two deliveries an id or an idempotency key of one source, and no two attempts
-- an id or a delivery, an action and a number, if none did at the start.
pub run_jobs-HasKeys :
    (env : Env) (jobs : List Job) (w : World) → HasKeys w.db → HasKeys (run_jobs env jobs w).1.db
run_jobs-HasKeys env jobs w h =
    (run_jobs-Keeps (worker-Keeps env (attempts-HasKeys env.host)) jobs).at w h

-- Whatever a worker does, failing calls included, no attempt gets the number 0 or one above the
-- limit of retries (or above 1, where the limit is lower), and only failed attempts with a number
-- below the limit have a time for a retry, if this held at the start.
pub run_jobs-IsBudgeted :
    (env : Env) (jobs : List Job) (w : World)
    → IsBudgeted env.worker.max_retries w.db
    → IsBudgeted env.worker.max_retries (run_jobs env jobs w).1.db
run_jobs-IsBudgeted env jobs w h = (run_jobs-Keeps (worker-IsBudgeted env) jobs).at w h
