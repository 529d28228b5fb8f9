-- ===== src/Boot/Health.antt =====
-- cmd/worker/main.go: the health server of the worker.
use nitrohook.Prelude.{ℕ, String, ◌≡◌, refl, List, [], ◌∷◌, inl, inr}
use nitrohook.Io.{World, Result, ok, err, Host, Io, ◌>>=◌, pure, query}
use nitrohook.Io.Reliable.{tick}
use nitrohook.Io.Outcomes.{query-cases}
use nitrohook.Server.{Server, plain, ready, redis_ready}

pub data HealthEndpoint : Type 0 where
  health metrics readiness : HealthEndpoint

-- The patterns of the mux.
abbrev pub health_routes : List (String × HealthEndpoint)
health_routes = ("/healthz", health) ∷ ("/metrics", metrics) ∷ ("/readyz", readiness) ∷ []

module _ (host : Host) where
  -- pool.Ping and rdb.Ping.
  abbrev ping : Io (Result (Unit {0}))
  ping = query host (λ _ db. ok tt)

  abbrev pub after_redis : Result (Unit {0}) → ℕ × String
  after_redis (err e) = (503, "{\"status\":\"error\",\"redis\":\"down\"}")
  after_redis (ok x) = (200, "{\"status\":\"ok\"}")

  unfoldable pub after_postgres : Result (Unit {0}) → Io (ℕ × String)
  after_postgres (err e) = pure (503, "{\"status\":\"error\",\"postgres\":\"down\"}")
  after_postgres (ok x) = do r ← ping; pure (after_redis r)

  unfoldable pub readyz : Io (ℕ × String)
  unfolding after_postgres
  readyz = do r ← ping; after_postgres r

  -- A status and a body; `metrics_text` is what the handler of Prometheus writes.
  unfoldable pub serve_health : String → HealthEndpoint → Io (ℕ × String)
  unfolding readyz
  serve_health metrics_text health = pure (200, "ok")
  serve_health metrics_text metrics = pure (200, metrics_text)
  serve_health metrics_text readiness = readyz

module _ (server : Server) where
  redis_ready-after_redis :
      (w : World)
      → redis_ready server (ok tt) w ≡ (
        plain (after_postgres server.host (ok tt) w).0.0 (after_postgres server.host (ok tt) w).0.1,
        (after_postgres server.host (ok tt) w).1,
      )
  unfolding redis_ready after_postgres pure
  redis_ready-after_redis w = elim (query-cases server.host (λ _ db. ok tt) w) [
    | inl (e, p) ↦ rw p refl
    | inr (tt, _, p) ↦ rw p refl
  ]

  -- The worker and the server answer a readiness check alike, whichever ping fails.
  pub ready-readyz :
      (w : World)
      → ready server w
        ≡ (plain (readyz server.host w).0.0 (readyz server.host w).0.1, (readyz server.host w).1)
  unfolding ready readyz redis_ready after_postgres pure
  ready-readyz w = elim (query-cases server.host (λ _ db. ok tt) w) [
    | inl (e, p) ↦ rw p refl
    | inr (x, _, p) ↦ rw p (redis_ready-after_redis (tick w))
  ]
