-- ===== src/Tests/Serving.antt =====
-- Requests to the server, and jobs of a worker beside it.
use Prim.Native.Nat.{max}
use nitrohook.Prelude.{◌≤◌, ◌≡◌, refl, none, [], ◌∷◌, length, inl, inr, All}
use nitrohook.Model.{pending as waiting}
use nitrohook.Io.{World}
use nitrohook.Store.Actions.{passes_checks}
use nitrohook.Worker.Jobs.{pending_tick, run_job}
use nitrohook.Worker.Startup.{Process, started, IsDispatched, started-IsDispatched}
use nitrohook.Routes.{get, route, routes, named, lit, web, web_delivery_detail, match_route}
use nitrohook.Server.{Server, Incoming, serve, handle, plain}
use nitrohook.Server.Routing.{handle-routed}
use nitrohook.Server.Consistent.{
  IsConsistent, Reach, start, after, request, job, Reach-IsConsistent,
}
use nitrohook.Server.Attempts.{attempts_to, Reach-attempts_to}
use nitrohook.Tests.Setup.{fixed_point, env, host, vm, registry, world}
use nitrohook.Tests.Ingesting.{json, texts}
use nitrohook.Tests.Sending.{net}
use nitrohook.Tests.Router.{first_match, first_match-IsRouter}
use nitrohook.Tests.Pages.{forms, page}

abbrev pub server : Server
server = record {
  router = first_match;
  host = host;
  vm = vm;
  registry = registry;
  json = json;
  texts = texts;
  forms = forms;
  raw = λ s. s;
  atoi = λ _. none;
  metrics_text = "";
  unmatched = λ _. plain 404 "404 page not found";
}

-- GET /deliveries/delivery
abbrev pub incoming : Incoming
incoming = record {
  method = get;
  path = "deliveries" ∷ "delivery" ∷ [];
  page = page "" "";
  query = λ _. "";
  request_id = none;
  body = none;
  create_source = none;
  update_source = none;
  create_action = none;
  update_action = none;
}

handle-routed_example :
    handle server incoming
    ≡ serve server (web web_delivery_detail) incoming (("id", "delivery") ∷ [])
unfolding routes match_route
handle-routed_example =
    handle-routed server incoming
      (route get (lit "deliveries" ∷ named "id" ∷ []) (web web_delivery_detail))
      (("id", "delivery") ∷ []) first_match-IsRouter
      (inr (
        inr (
          inr (
            inr (
              inr (
                inr (
                  inr (
                    inr (
                      inr (
                        inr (
                          inr (
                            inr (
                              inr (
                                inr (
                                  inr (
                                    inr (
                                      inr (
                                        inr (
                                          inr (
                                            inr
                                              (inr (inr (inr (inr (inl refl)))))))))))))))))))))))))
      refl

abbrev begin : World
begin = world "down" waiting

-- A request is answered, and then the worker polls.
abbrev finish : World
finish = (run_job env pending_tick (handle server incoming begin).1).1

both : Reach 3 begin finish
both =
    after begin (handle server incoming begin).1 finish
      (after begin begin (handle server incoming begin).1 (start begin)
        (request server incoming begin))
      (job env pending_tick (handle server incoming begin).1 refl)

begin-IsConsistent : IsConsistent 3 begin.db
unfolding passes_checks
begin-IsConsistent = record {
  keys = record { sources = (tt, tt); actions = (tt, tt); deliveries = (tt, tt); attempts = tt };
  references = record { actions = (refl, tt); deliveries = (refl, tt); attempts = tt };
  values = record { sources = (refl, tt); actions = (refl, tt) };
  budget = record { attempts = tt };
}

Reach-IsConsistent_example : IsConsistent 3 finish.db
Reach-IsConsistent_example = Reach-IsConsistent 3 begin finish both begin-IsConsistent

Reach-attempts_to_example : length (attempts_to 7 2 finish.db) ≤ max 1 3
Reach-attempts_to_example = Reach-attempts_to 3 7 2 begin finish both begin-IsConsistent

abbrev process : Process
process = record {
  environment = record { getenv = λ _. ""; atoi = λ _. none; parse_duration = λ _. none };
  host = host;
  vm = vm;
  net = λ _. net;
  floats = fixed_point;
  beyond_int64 = 0;
}

started-IsDispatched_example : All (IsDispatched (started process).registry) begin.db.actions
started-IsDispatched_example = started-IsDispatched process begin.db begin-IsConsistent.values

-- Without variables of the environment, the default limit.
started_limit : (started process).worker.max_retries ≡ 5
unfolding started
started_limit = refl
