-- ===== src/Boot/Orderly.antt =====
-- How the two processes begin and end.
use Prim.Native.String.{◌++◌}
use nitrohook.Prelude.{
  ℕ, zero, suc, ◌+◌, ◌<◌, ap, sym, List, ◌++◌ as append, In, length, String, ◌≡◌, refl, eq_iff,
  true, false, Option, none, some, [], ◌∷◌, ◌⊎◌, ◌∙◌, ◌↔◌, inl, inr, Option-cases, Bool-cases,
  arith, same, All,
}
use nitrohook.Dispatch.Net.{ℤ, pos, negsuc}
use nitrohook.Config.{Config}
use native.Mathlib.Decide.{dec_lt}
use nitrohook.Worker.Startup.{at_least_zero}
use nitrohook.Boot.{
  Outside, Event, opened_pool, closed_pool, opened_redis, closed_redis, opened_migrations,
  closed_migrations, launched, served, serve, Up, migrated, no_change, up_failed, up_error, migrate,
  after_source, after_instance, Log, connect, after_parse, after_pool, after_ping, start,
  after_group, goroutines, consumers, Goroutine, consumer, pending_poller, retries_poller,
  server_failed,
}
use nitrohook.Boot.Mains.{
  Exit, exited, returned, closing, Rest, connect_both, connect_redis, start_worker, worker_main,
  api_main,
}

-- No worker runs, and no server.
unfoldable pub IsIdle : Event → Type 0
IsIdle (launched gs) = ⊥
IsIdle (served port) = ⊥
IsIdle _ = Unit

-- PostgreSQL and Redis can be reached.
pub record IsReachable (o : Outside) (cfg : Config) : Type 0 where
  pub config : o.parse_config cfg.database_url ≡ none
  pub pool : o.new_pool cfg.database_url ≡ none
  pub postgres : o.ping_pool ≡ none
  pub url : o.parse_redis cfg.redis_url ≡ none
  pub redis : o.ping_redis ≡ none

-- The consumer group is there, or it is made.
unfoldable pub HasGroup : Option String → Type 0
HasGroup none = Unit
HasGroup (some e) = e ≡ "BUSYGROUP Consumer Group name already exists"

-- The number of consumers that a setting asks for.
abbrev pub count_of : ℤ → ℕ
count_of (pos n) = n
count_of (negsuc n) = 0

at_least_zero-count_of : (z : ℤ) → at_least_zero z ≡ count_of z
at_least_zero-count_of (pos n) = refl
at_least_zero-count_of (negsuc n) = refl

-- Two pollers, and as many consumers as are configured.
pub record IsStaff (n : ℕ) (gs : List Goroutine) : Type 0 where
  pub pending : In pending_poller gs
  pub retries : In retries_poller gs
  pub each : (k : ℕ) → k < n → In (consumer k) gs
  pub size : length gs ≡ n + 2

consumers-In : (n k : ℕ) → k < n → In (consumer k) (consumers n)
consumers-In zero k less = absurd (omega arith)
consumers-In (suc n) k less = elim (dec_lt k n) [
  | yes below ↦ inr (consumers-In n k below)
  | no over ↦ let e : k ≡ n = omega arith in inl (ap consumer e)
]

length-consumers : (n : ℕ) → length (consumers n) ≡ n
length-consumers zero = refl
length-consumers (suc n) = omega (arith, length-consumers n)

goroutines-IsStaff : (n : ℕ) → IsStaff n (goroutines n)
goroutines-IsStaff n = record {
  pending = inr (inl refl);
  retries = inl refl;
  each = λ k less. inr (inr (consumers-In n k less));
  size = omega (arith, length-consumers n);
}

-- What ListenAndServe on an address leaves, the newest first.
abbrev pub serving : Option String → String → Log
serving none address = served address ∷ []
serving (some e) address = server_failed e ∷ served address ∷ []

serve-serving :
    (e : Option String) (address : String) (log : Log)
    → serve e address log ≡ append (serving e address) log
unfolding serve
serve-serving none address log = refl
serve-serving (some e) address log = refl

module _ (o : Outside) (cfg : Config) where
  -- A process that gives up: the status is 1, and nothing was started.
  unfoldable pub IsRefused : Exit × Log → Type 0
  unfolding IsIdle
  IsRefused out = (out.0 ≡ exited 1) × All IsIdle out.1

  connect_both-cases :
      (k : Rest)
      → (IsReachable o cfg × (connect_both o cfg k [] ≡ k (opened_redis ∷ opened_pool ∷ [])))
        ⊎ IsRefused (connect_both o cfg k [])
  unfolding connect_both connect_redis connect after_parse after_pool after_ping IsIdle IsRefused
  connect_both-cases k = elim (Option-cases (o.parse_config cfg.database_url)) [
    | inr (e, p) ↦ inr (rw p (refl, tt))
    | inl config ↦ elim (Option-cases (o.new_pool cfg.database_url)) [
      | inr (e, p) ↦ inr (rw (config, p) (refl, tt))
      | inl pool ↦ elim (Option-cases o.ping_pool) [
        | inr (e, p) ↦ inr (rw (config, pool, p) (refl, (tt, (tt, tt))))
        | inl postgres ↦ elim (Option-cases (o.parse_redis cfg.redis_url)) [
          | inr (e, p) ↦ inr (rw (config, pool, postgres, p) (refl, (tt, tt)))
          | inl url ↦ elim (Option-cases o.ping_redis) [
            | inr (e, p) ↦ inr (rw (config, pool, postgres, url, p) (refl, (tt, (tt, tt))))
            | inl redis ↦ inl (
              record {
                config = config;
                pool = pool;
                postgres = postgres;
                url = url;
                redis = redis;
              },
              rw (config, pool, postgres, url, redis) refl,
            )
          ]
        ]
      ]
    ]
  ]

  start_worker-cases :
      (k : Rest)
      → (HasGroup o.create_group
          × (start_worker o cfg k (opened_redis ∷ opened_pool ∷ [])
              ≡ k (
                  launched (goroutines (at_least_zero cfg.worker_concurrency))
                  ∷ opened_redis
                  ∷ opened_pool
                  ∷ [])))
        ⊎ IsRefused (start_worker o cfg k (opened_redis ∷ opened_pool ∷ []))
  unfolding start_worker start after_group HasGroup IsIdle IsRefused
  start_worker-cases k = elim (Option-cases o.create_group) [
    | inl p ↦ inl (rw p (tt, refl))
    | inr (e, p) ↦ elim (Bool-cases (same e "BUSYGROUP Consumer Group name already exists")) [
      | inl b ↦ inl (
          rw p (ground (arith, eq_iff e "BUSYGROUP Consumer Group name already exists"), rw b refl))
      | inr b ↦ inr (rw (p, b) (refl, (tt, (tt, tt))))
    ]
  ]

  -- A process that ran: at the end it closes what it opened, the other way round.
  abbrev pub ran : String → Log → Exit × Log
  ran address log =
      (returned, closed_pool ∷ closed_redis ∷ append (serving o.serve_error address) log)

  abbrev pub connected : Log
  connected = opened_redis ∷ opened_pool ∷ []

  -- A process that ran with a worker, whose goroutines were launched after both connections.
  pub record IsRun (address : String) (out : Exit × Log) : Type 0 where
    pub reachable : IsReachable o cfg
    pub group : HasGroup o.create_group
    pub goroutines : List Goroutine
    pub staff : IsStaff (count_of cfg.worker_concurrency) goroutines
    pub log : out ≡ ran address (launched goroutines ∷ connected)

  with_worker-cases :
      (address : String)
      → IsRun address (
          connect_both o cfg
            (start_worker o cfg λ log. closing (serve o.serve_error address log))
            [])
        ⊎ IsRefused (
            connect_both o cfg
              (start_worker o cfg λ log. closing (serve o.serve_error address log))
              [])
  with_worker-cases address =
      let k : Rest = λ log. closing (serve o.serve_error address log) in
      elim (connect_both-cases (start_worker o cfg k)) [
        | inr refused ↦ inr refused
        | inl (reached, p) ↦ elim (start_worker-cases k) [
          | inl (group, q) ↦ inl (record {
            reachable = reached;
            group = group;
            goroutines = goroutines (at_least_zero cfg.worker_concurrency);
            staff = rw (sym (at_least_zero-count_of cfg.worker_concurrency)) (goroutines-IsStaff _);
            log = p ∙ q ∙ ap closing (serve-serving o.serve_error address _);
          })
          | inr refused ↦ inr (rw p refused)
        ]
      ]

  without_worker-cases :
      (address : String)
      → (IsReachable o cfg
          × (connect_both o cfg (λ log. closing (serve o.serve_error address log)) []
              ≡ ran address connected))
        ⊎ IsRefused (connect_both o cfg (λ log. closing (serve o.serve_error address log)) [])
  without_worker-cases address =
      elim (connect_both-cases (λ log. closing (serve o.serve_error address log))) [
        | inr refused ↦ inr refused
        | inl (reached, p) ↦
            inl (reached, p ∙ ap closing (serve-serving o.serve_error address connected))
      ]

  -- The process of the worker runs to its end with two pollers and the consumers that are
  -- configured, and no other goroutine, started after PostgreSQL, Redis and the group of consumers
  -- were found, has served its health server and closes its connections; or it ends with the status
  -- 1 and has started and served nothing. So does the process of the server, on its port, with the
  -- worker only if it is asked for; and an error of a server that cannot listen changes neither.
  pub mains-cases :
      (IsRun ":8081" (worker_main o cfg) ⊎ IsRefused (worker_main o cfg))
      × ((IsReachable o cfg × (api_main o cfg false false ≡ ran (":" ++ cfg.port) connected))
          ⊎ IsRefused (api_main o cfg false false))
      × (IsRun (":" ++ cfg.port) (api_main o cfg true false)
          ⊎ IsRefused (api_main o cfg true false))
  unfolding worker_main api_main
  mains-cases = (
    with_worker-cases ":8081",
    without_worker-cases (":" ++ cfg.port),
    with_worker-cases (":" ++ cfg.port),
  )

up_error-none :
    (up : Up)
    → (up_error up ≡ none) ↔ (
        (◌≡◌ {A = Option String} none none)
        × (◌≡◌ {A = Option String} none none)
        × ((up ≡ migrated) ⊎ (up ≡ no_change)))
up_error-none migrated = (λ _. (refl, refl, inl refl), λ _. refl)
up_error-none no_change = (λ _. (refl, refl, inr refl), λ _. refl)
up_error-none (up_failed e) = ground arith

-- Migrations leave nothing open, and succeed exactly when their files can be read, the database can
-- be reached and all of them have been applied, now or before.
pub migrate-cases :
    (o : Outside) (url : String)
    → (((migrate o url []).0 ≡ none) ↔ (
        (o.migration_source ≡ none)
        × (o.migration_instance url ≡ none)
        × ((o.up ≡ migrated) ⊎ (o.up ≡ no_change))))
      × (((migrate o url []).1 ≡ [])
          ⊎ ((migrate o url []).1 ≡ closed_migrations ∷ opened_migrations ∷ []))
unfolding migrate after_source after_instance
migrate-cases o url = elim (Option-cases o.migration_source) [
  | inr (e, p) ↦ (ground arith, inl (rw p refl))
  | inl source ↦ elim (Option-cases (o.migration_instance url)) [
    | inr (e, p) ↦ (ground arith, inl (rw (source, p) refl))
    | inl instance_ ↦
        (rw (source, instance_) (up_error-none o.up), inr (rw (source, instance_) refl))
  ]
]
