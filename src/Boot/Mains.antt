-- ===== src/Boot/Mains.antt =====
-- The two main functions, by the settings of the environment.
use Prim.Native.String.{◌++◌}
use nitrohook.Prelude.{ℕ, String, Bool, true, false, Option, none, some, [], ◌∷◌}
use nitrohook.Config.{Config}
use nitrohook.Worker.Startup.{new_worker}
use nitrohook.Boot.{
  Outside, closed_pool, opened_redis, closed_redis, serve, Log, connect, migrate, start,
}

-- os.Exit with a status, which runs no deferred call, or the end of main.
pub data Exit : Type 0 where
  exited : ℕ → Exit
  returned : Exit

-- The rest of main, and what it ends with.
abbrev pub Rest : Type 0
Rest = Log → Exit × Log

-- An error is logged and ends the process.
abbrev pub or_exit : Option String × Log → Rest → Exit × Log
or_exit (none, log) k = k log
or_exit (some e, log) k = (exited 1, log)

-- rdb.Close and pool.Close, deferred.
abbrev pub closing : Log → Exit × Log
closing log = (returned, closed_pool ∷ closed_redis ∷ log)

module _ (o : Outside) (cfg : Config) where
  unfoldable pub connect_redis : Rest → Rest
  connect_redis k log =
      or_exit (o.parse_redis cfg.redis_url, log)
        λ log'. or_exit (o.ping_redis, opened_redis ∷ log') k

  -- PostgreSQL, and then Redis, as both main functions connect to them.
  unfoldable pub connect_both : Rest → Rest
  unfolding connect_redis connect
  connect_both k log = or_exit (connect o cfg.database_url log) (connect_redis k)

  -- The worker, started with the settings.
  unfoldable pub start_worker : Rest → Rest
  unfolding start
  start_worker k log = or_exit (start o (new_worker cfg).concurrency log) k

  -- main of cmd/worker, and of its health server.
  unfoldable pub worker_main : Exit × Log
  unfolding connect_both start_worker
  worker_main = connect_both (start_worker λ log. closing (serve o.serve_error ":8081" log)) []

  abbrev pub start_if : Bool → Rest → Rest
  start_if true k = start_worker k
  start_if false k = k

  -- main of cmd/api with the flags -worker and -migrate. An error of the server is logged and
  -- cancels the context, so that main ends as it ends on a signal.
  unfoldable pub api_main : Bool → Bool → Exit × Log
  unfolding connect_both start_worker migrate
  api_main with_worker true = or_exit (migrate o cfg.database_url []) λ log. (returned, log)
  api_main with_worker false =
      connect_both (start_if with_worker λ log. closing (serve o.serve_error (":" ++ cfg.port) log))
        []
