-- ===== src/Tests/Starting.antt =====
-- The processes from their start, and a webhook through the middleware.
use nitrohook.Prelude.{◌≡◌, none, some, [], ◌∷◌, refl, true, false, ◌⊎◌}
use nitrohook.Model.{pending}
use nitrohook.Dispatch.Net.{pos}
use nitrohook.Config.{Config}
use nitrohook.Boot.{Outside, no_change}
use nitrohook.Boot.Mains.{worker_main, api_main}
use nitrohook.Boot.Orderly.{IsReachable, IsRefused, IsRun, ran, connected, mains-cases}
use nitrohook.Routes.{post, routes, match_route, param}
use nitrohook.Tests.Router.{first_match}
use nitrohook.Server.{Incoming}
use nitrohook.Server.Logging.{logged, IsTraced, logged-IsTraced}
use nitrohook.Tests.Setup.{world}
use nitrohook.Tests.Serving.{server, incoming}

abbrev config : Config
config = record {
  database_url = "postgres://localhost";
  redis_url = "redis://localhost";
  port = "8080";
  worker_concurrency = pos 2;
  max_retries = pos 5;
  retry_base_delay = 5000000000;
  delivery_timeout = 10000000000;
  poll_interval = 30000000000;
}

-- All can be reached, and the group of consumers is there already.
abbrev outside : Outside
outside = record {
  parse_config = λ _. none;
  new_pool = λ _. none;
  ping_pool = none;
  parse_redis = λ _. none;
  ping_redis = none;
  create_group = some "BUSYGROUP Consumer Group name already exists";
  migration_source = none;
  migration_instance = λ _. none;
  up = no_change;
  serve_error = none;
}

mains-cases_example :
    (IsRun outside config ":8081" (worker_main outside config)
      ⊎ IsRefused outside config (worker_main outside config))
    × ((IsReachable outside config
          × (api_main outside config false false
              ≡ ran outside config ":8080" (connected outside config)))
        ⊎ IsRefused outside config (api_main outside config false false))
    × (IsRun outside config ":8080" (api_main outside config true false)
        ⊎ IsRefused outside config (api_main outside config true false))
mains-cases_example = mains-cases outside config

-- POST /webhooks/orders
abbrev webhook : Incoming
webhook = record incoming { method = post; path = "webhooks" ∷ "orders" ∷ []; body = some "{}" }

logged-IsTraced_example :
    IsTraced server webhook "orders"
      (world "up" pending)
      (logged server webhook (world "up" pending))
unfolding routes match_route first_match param
logged-IsTraced_example =
    logged-IsTraced server webhook (("sourceSlug", "orders") ∷ []) (world "up" pending) refl
