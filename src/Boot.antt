-- ===== src/Boot.antt =====
-- internal/database/*.go, Start of internal/worker/fanout.go, and what cmd/worker/main.go and
-- cmd/api/main.go do from their start to their end.
pub mod Mains
pub mod Orderly
pub mod Health
use Prim.Native.String.{◌++◌}
use nitrohook.Prelude.{
  ℕ, suc, zero, String, Bool, true, false, Option, none, some, List, [], ◌∷◌, same, if◌then◌else◌,
}

-- The result of Up: migrate.ErrNoChange is an error of its own.
pub data Up : Type 0 where
  migrated no_change : Up
  up_failed : String → Up

-- pgxpool, migrate, redis and net/http: the text of the error of a call, if it fails. `serve_error`
-- is an error of ListenAndServe other than http.ErrServerClosed.
pub record Outside : Type 0 where
  pub parse_config : String → Option String
  pub new_pool : String → Option String
  pub ping_pool : Option String
  pub parse_redis : String → Option String
  pub ping_redis : Option String
  pub create_group : Option String
  pub migration_source : Option String
  pub migration_instance : String → Option String
  pub up : Up
  pub serve_error : Option String

-- What Start launches.
pub data Goroutine : Type 0 where
  consumer : ℕ → Goroutine
  pending_poller retries_poller : Goroutine

pub data Event : Type 0 where
  opened_pool closed_pool opened_redis closed_redis : Event
  opened_migrations closed_migrations : Event
  launched : List Goroutine → Event
  served server_failed : String → Event

-- The events up to now, newest first.
abbrev pub Log : Type 0
Log = List Event

-- The error of a function that may fail.
abbrev pub Failing : Type 0
Failing = Log → Option String × Log

unfoldable pub after_ping : Option String → Failing
after_ping none log = (none, log)
after_ping (some e) log = (some ("ping database: " ++ e), closed_pool ∷ log)

unfoldable pub after_pool : Outside → Option String → Failing
unfolding after_ping
after_pool o none log = after_ping o.ping_pool (opened_pool ∷ log)
after_pool o (some e) log = (some ("create connection pool: " ++ e), log)

unfoldable pub after_parse : Outside → String → Option String → Failing
unfolding after_pool
after_parse o url none log = after_pool o (o.new_pool url) log
after_parse o url (some e) log = (some ("parse database URL: " ++ e), log)

-- database.Connect
unfoldable pub connect : Outside → String → Failing
unfolding after_parse
connect o url log = after_parse o url (o.parse_config url) log

abbrev pub up_error : Up → Option String
up_error migrated = none
up_error no_change = none
up_error (up_failed e) = some ("run migrations: " ++ e)

unfoldable pub after_instance : Outside → Option String → Failing
after_instance o none log = (up_error o.up, closed_migrations ∷ opened_migrations ∷ log)
after_instance o (some e) log = (some ("create migrate instance: " ++ e), log)

unfoldable pub after_source : Outside → String → Option String → Failing
unfolding after_instance
after_source o url none log = after_instance o (o.migration_instance url) log
after_source o url (some e) log = (some ("create migration source: " ++ e), log)

-- database.Migrate
unfoldable pub migrate : Outside → String → Failing
unfolding after_source
migrate o url log = after_source o url o.migration_source log

-- The consumers "worker-0" to the number, the last one first.
abbrev pub consumers : ℕ → List Goroutine
consumers zero = []
consumers (suc n) = consumer n ∷ consumers n

abbrev pub goroutines : ℕ → List Goroutine
goroutines concurrency = retries_poller ∷ pending_poller ∷ consumers concurrency

unfoldable pub after_group : ℕ → Option String → Failing
after_group concurrency none log = (none, launched (goroutines concurrency) ∷ log)
after_group concurrency (some e) log =
    if same e "BUSYGROUP Consumer Group name already exists"
    then (none, launched (goroutines concurrency) ∷ log)
    else (some ("create consumer group: " ++ e), log)

-- Start
unfoldable pub start : Outside → ℕ → Failing
unfolding after_group
start o concurrency log = after_group concurrency o.create_group log

-- ListenAndServe on an address. An error is logged; the server of cmd/api also cancels the context,
-- which is what the rest of main waits for.
unfoldable pub serve : Option String → String → Log → Log
serve none address log = served address ∷ log
serve (some e) address log = server_failed e ∷ served address ∷ log
