-- ===== src/Server.antt =====
-- cmd/api/main.go: the handler that a request reaches.
pub mod Routing
pub mod Reading
pub mod Keeps
pub mod Consistent
pub mod Attempts
pub mod Delivered
pub mod Logging
use nitrohook.Prelude.{
  ℕ, String, Bool, true, false, ◌&&◌, Option, none, some, List, [], ◌∷◌, ◌++◌, same, if◌then◌else◌,
}
use nitrohook.Model.{Uuid}
use nitrohook.Io.{Result, ok, err, Host, Io, ◌>>=◌, ◌>>◌, pure, query}
use nitrohook.Script.{Vm}
use nitrohook.Dispatch.{Registry}
use nitrohook.Handler.Ingest
use nitrohook.Handler.Ingest.{Json, ingest}
use nitrohook.Handler.Sources
use nitrohook.Handler.Sources.{Texts, CreateSourceRequest, UpdateSourceRequest}
use nitrohook.Handler.Actions
use nitrohook.Handler.Actions.{CreateActionRequest, UpdateActionRequest}
use nitrohook.Handler.Deliveries
use nitrohook.Dispatch.Net.{ℤ}
use nitrohook.Web.Pages
use nitrohook.Web.Pages.{Forms}
use nitrohook.Web.Sources.{
  sources, source_detail, source_script, source_actions, source_events, create_source,
  update_source, delete_source, update_source_mode,
}
use nitrohook.Web.Scripts.{Trial, update_source_script, clear_source_script, test_source_script}
use nitrohook.Web.Actions.{create_action, edit_action, update_action, toggle_action, delete_action}
use nitrohook.Web.Deliveries.{deliveries, delivery_detail}
use nitrohook.Routes.{
  Endpoint, Method, PageEndpoint, Params, Route, Segment, api_create_action, api_create_source,
  api_delete_action, api_delete_source, api_get_action, api_get_delivery, api_get_source,
  api_list_actions, api_list_attempts, api_list_deliveries, api_list_sources, api_update_action,
  api_update_source, delete, Router, get, healthz, home, lit, match_path, match_route, metrics,
  named, param, patch, post, readyz, route, routes, same_method, web, web_clear_script,
  web_create_action, web_create_source, web_delete_action, web_delete_source, web_deliveries,
  web_delivery_detail, web_edit_action, web_forward, web_forward_all, web_source_actions,
  web_source_detail, web_source_events, web_source_script, web_sources, web_test_script,
  web_toggle_action, web_update_action, web_update_mode, web_update_script, web_update_source,
  webhook_ingest, with_param,
}
use nitrohook.Web.Forward.{forward_delivery, forward_all_recorded}

-- A request, with what c.Query, PostForm, GetHeader and the binding of a JSON body give.
pub record Incoming : Type 0 where
  pub method : Method
  pub path : List String
  pub page : Pages.Request
  pub query : String → String
  pub request_id : Option String
  pub body : Option String
  pub create_source : Option CreateSourceRequest
  pub update_source : Option UpdateSourceRequest
  pub create_action : Option CreateActionRequest
  pub update_action : Option UpdateActionRequest

pub data Answer (vm : Vm) : Type 0 where
  plain : ℕ → String → Answer vm
  moved : String → Answer vm
  page : Pages.Response → Answer vm
  trial : Trial vm → Answer vm
  ingested : Ingest.Response → Answer vm
  source : Sources.Response → Answer vm
  action : Actions.Response → Answer vm
  delivery : Deliveries.Response → Answer vm

-- What the server calls that is not code of the repository: `router` is the router of gin,
-- `metrics_text` what the handler of Prometheus writes, and `unmatched` what gin answers to a
-- request without a route.
pub record Server : Type 1 where
  pub router : Router
  pub host : Host
  pub vm : Vm
  pub registry : Registry
  pub json : Json
  pub texts : Texts
  pub forms : Forms
  pub raw : String → vm.Object
  pub atoi : String → Option ℤ
  pub metrics_text : String
  pub unmatched : Incoming → Answer vm

-- The answer of a handler.
abbrev pub answered : {A B : Type 0} → (A → B) → Io A → Io B
answered f m = do a ← m; pure (f a)

module _ (server : Server) where
  open server use {host, vm, registry, json, texts, forms}

  -- pool.Ping and rdb.Ping.
  abbrev pub ping : Io (Result (Unit {0}))
  ping = query host (λ _ db. ok tt)

  unfoldable pub redis_ready : Result (Unit {0}) → Io (Answer vm)
  redis_ready (err e) = pure (plain 503 "{\"status\":\"error\",\"postgres\":\"down\"}")
  redis_ready (ok x) = do
    r ← ping
    pure (elim r [
      | err e ↦ plain 503 "{\"status\":\"error\",\"redis\":\"down\"}"
      | ok y ↦ plain 200 "{\"status\":\"ok\"}"
    ])

  unfoldable pub ready : Io (Answer vm)
  unfolding redis_ready
  ready = do r ← ping; redis_ready r

  abbrev pub ingest_request : Incoming → String → Ingest.Request
  ingest_request r slug = record {
    source_slug = slug;
    header = r.page.header;
    request_id = r.request_id;
    body = r.body;
  }

  -- The handlers of the pages, by the parameters "slug" and "id".
  unfoldable pub serve_page : PageEndpoint → Incoming → String → String → Io Pages.Response
  serve_page web_sources r slug id = sources host
  serve_page web_create_source r slug id = create_source host texts forms r.page
  serve_page web_source_detail r slug id = source_detail host r.page slug
  serve_page web_source_script r slug id = source_script host slug
  serve_page web_source_actions r slug id = source_actions host r.page slug
  serve_page web_source_events r slug id = source_events host r.page slug
  serve_page web_forward_all r slug id = forward_all_recorded host slug
  serve_page web_forward r slug id = forward_delivery host slug id
  serve_page web_update_source r slug id = update_source host forms r.page slug
  serve_page web_delete_source r slug id = delete_source host slug
  serve_page web_update_mode r slug id = update_source_mode host r.page slug
  serve_page web_update_script r slug id = update_source_script host vm forms r.page slug
  serve_page web_clear_script r slug id = clear_source_script host slug
  serve_page web_create_action r slug id = create_action host vm forms r.page slug
  serve_page web_edit_action r slug id = edit_action host vm forms r.page slug id
  serve_page web_update_action r slug id = update_action host vm forms r.page slug id
  serve_page web_toggle_action r slug id = toggle_action host vm forms r.page slug id
  serve_page web_delete_action r slug id = delete_action host vm forms r.page slug id
  serve_page web_deliveries r slug id = deliveries host (r.query "source")
  serve_page web_delivery_detail r slug id = delivery_detail host id

  unfoldable pub serve : Endpoint → Incoming → Params → Io (Answer vm)
  unfolding param ready serve_page
  serve healthz r p = pure (plain 200 ".")
  serve metrics r p = pure (plain 200 server.metrics_text)
  serve readyz r p = ready
  serve home r p = pure (moved "/sources")
  serve web_test_script r p =
      answered trial (test_source_script host vm server.raw forms r.page (param p "slug"))
  serve webhook_ingest r p =
      answered ingested (ingest host json (ingest_request r (param p "sourceSlug")))
  serve api_list_sources r p = answered source (Sources.list host vm texts)
  serve api_create_source r p = answered source (Sources.create host vm texts r.create_source)
  serve api_get_source r p = answered source (Sources.get host vm texts (param p "sourceSlug"))
  serve api_update_source r p =
      answered source (Sources.update host vm texts (param p "sourceSlug") r.update_source)
  serve api_delete_source r p =
      answered source (Sources.delete host vm texts (param p "sourceSlug"))
  serve api_create_action r p =
      answered action (Actions.create host vm registry (param p "sourceSlug") r.create_action)
  serve api_list_actions r p =
      answered action (Actions.list host vm registry (param p "sourceSlug"))
  serve api_get_action r p = answered action (Actions.get host vm registry (param p "id"))
  serve api_update_action r p =
      answered action (Actions.update host vm registry (param p "id") r.update_action)
  serve api_delete_action r p = answered action (Actions.delete host vm registry (param p "id"))
  serve api_list_deliveries r p =
      answered delivery (Deliveries.list host server.atoi (r.query "source") (r.query "limit"))
  serve api_get_delivery r p = answered delivery (Deliveries.get host (param p "id"))
  serve api_list_attempts r p = answered delivery (Deliveries.list_attempts host (param p "id"))
  serve (web e) r p = answered page (serve_page e r (param p "slug") (param p "id"))

  unfoldable pub serve_found : Incoming → Option (Endpoint × Params) → Io (Answer vm)
  unfolding serve
  serve_found r none = pure (server.unmatched r)
  serve_found r (some (e, p)) = serve e r p

  unfoldable pub handle : Incoming → Io (Answer vm)
  unfolding routes serve_found
  handle r = serve_found r (server.router routes r.method r.path)
