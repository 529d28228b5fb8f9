-- ===== src/Server/Keeps.antt =====
-- The server keeps what the writes of the stores keep.
use nitrohook.Prelude.{String, Option, none, some}
use nitrohook.Io.{Db, Result, ok, err, Io, pure}
use nitrohook.Io.Keeps.{Keeps, Keeps-pure, Keeps-bind, keeps_rules}
use nitrohook.Store.Keeping.{ClientKeeps}
use nitrohook.Handler.Keeps as ApiKeeps
use nitrohook.Web.Keeps as PageKeeps
use nitrohook.Web.Keeps.{or_text-Keeps, with_source-Keeps}
use nitrohook.Web.Actions.Keeping as ActionKeeps
use nitrohook.Web.Forward.Keeping as ForwardKeeps
use nitrohook.Server.Reading.{
  sources-Keeps, source_detail-Keeps, source_script-Keeps, source_actions-Keeps,
  source_events-Keeps, edit_action-Keeps, deliveries-Keeps, delivery_detail-Keeps,
  test_source_script-Keeps, api_source-Keeps, api_sources-Keeps, api_actions-Keeps,
  api_action-Keeps, api_deliveries-Keeps, api_delivery-Keeps, api_attempts-Keeps,
}
use nitrohook.Routes.{Endpoint, PageEndpoint, Params, routes}
use nitrohook.Server.{
  Server, Incoming, Answer, redis_ready, ready, serve_page, serve, serve_found, handle, answered,
}

answered-Keeps :
    {A B : Type 0} {Q : Db → Type 0} (f : A → B) (m : Io A) → Keeps Q m → Keeps Q (answered f m)
answered-Keeps f m h = Keeps-bind m (λ a. pure (f a)) h (λ a. Keeps-pure (f a))

module _ (server : Server) {Q : Db → Type 0} (c : ClientKeeps server.host Q) where
  open server use {host, vm, registry, json, texts, forms}

  redis_ready-Keeps : (r : Result (Unit {0})) → Keeps Q (redis_ready server r)
  unfolding redis_ready
  redis_ready-Keeps (err e) = Keeps-pure _
  redis_ready-Keeps (ok x) = search (keeps_rules)

  ready-Keeps : Keeps Q (ready server)
  unfolding ready
  ready-Keeps = search (keeps_rules, redis_ready-Keeps)

  serve_page-Keeps :
      (e : PageEndpoint) (r : Incoming) (slug id : String) → Keeps Q (serve_page server e r slug id)
  unfolding serve_page
  serve_page-Keeps PageEndpoint.web_sources r slug id = sources-Keeps c
  serve_page-Keeps PageEndpoint.web_create_source r slug id =
      PageKeeps.create_source-Keeps c texts forms r.page
  serve_page-Keeps PageEndpoint.web_source_detail r slug id = source_detail-Keeps c r.page slug
  serve_page-Keeps PageEndpoint.web_source_script r slug id = source_script-Keeps c slug
  serve_page-Keeps PageEndpoint.web_source_actions r slug id = source_actions-Keeps c r.page slug
  serve_page-Keeps PageEndpoint.web_source_events r slug id = source_events-Keeps c r.page slug
  serve_page-Keeps PageEndpoint.web_forward_all r slug id =
      ForwardKeeps.forward_all_recorded-Keeps c slug
  serve_page-Keeps PageEndpoint.web_forward r slug id =
      ForwardKeeps.forward_delivery-Keeps c slug id
  serve_page-Keeps PageEndpoint.web_update_source r slug id =
      PageKeeps.update_source-Keeps c forms r.page slug
  serve_page-Keeps PageEndpoint.web_delete_source r slug id = PageKeeps.delete_source-Keeps c slug
  serve_page-Keeps PageEndpoint.web_update_mode r slug id =
      PageKeeps.update_source_mode-Keeps c r.page slug
  serve_page-Keeps PageEndpoint.web_update_script r slug id =
      PageKeeps.update_source_script-Keeps c vm forms r.page slug
  serve_page-Keeps PageEndpoint.web_clear_script r slug id =
      PageKeeps.clear_source_script-Keeps c slug
  serve_page-Keeps PageEndpoint.web_create_action r slug id =
      ActionKeeps.create_action-Keeps c vm forms r.page slug
  serve_page-Keeps PageEndpoint.web_edit_action r slug id =
      edit_action-Keeps c vm forms r.page slug id
  serve_page-Keeps PageEndpoint.web_update_action r slug id =
      ActionKeeps.update_action-Keeps c vm forms r.page slug id
  serve_page-Keeps PageEndpoint.web_toggle_action r slug id =
      ActionKeeps.toggle_action-Keeps c vm forms r.page slug id
  serve_page-Keeps PageEndpoint.web_delete_action r slug id =
      ActionKeeps.delete_action-Keeps c vm forms r.page slug id
  serve_page-Keeps PageEndpoint.web_deliveries r slug id = deliveries-Keeps c (r.query "source")
  serve_page-Keeps PageEndpoint.web_delivery_detail r slug id = delivery_detail-Keeps c id

  serve-Keeps : (e : Endpoint) (r : Incoming) (p : Params) → Keeps Q (serve server e r p)
  unfolding serve
  serve-Keeps Endpoint.healthz r p = Keeps-pure _
  serve-Keeps Endpoint.metrics r p = Keeps-pure _
  serve-Keeps Endpoint.readyz r p = ready-Keeps
  serve-Keeps Endpoint.home r p = Keeps-pure _
  serve-Keeps (Endpoint.web e) r p = answered-Keeps Answer.page _ (serve_page-Keeps e r _ _)
  serve-Keeps Endpoint.web_test_script r p =
      answered-Keeps Answer.trial _ (test_source_script-Keeps c vm server.raw forms r.page _)
  serve-Keeps Endpoint.webhook_ingest r p =
      answered-Keeps Answer.ingested _ (ApiKeeps.ingest-Keeps c json _)
  serve-Keeps Endpoint.api_list_sources r p =
      answered-Keeps Answer.source _ (api_sources-Keeps server c)
  serve-Keeps Endpoint.api_create_source r p =
      answered-Keeps Answer.source _ (ApiKeeps.create_source-Keeps c vm texts r.create_source)
  serve-Keeps Endpoint.api_get_source r p =
      answered-Keeps Answer.source _ (api_source-Keeps server c _)
  serve-Keeps Endpoint.api_update_source r p =
      answered-Keeps Answer.source _ (ApiKeeps.update_source-Keeps c vm texts _ r.update_source)
  serve-Keeps Endpoint.api_delete_source r p =
      answered-Keeps Answer.source _ (ApiKeeps.delete_source-Keeps c vm texts _)
  serve-Keeps Endpoint.api_create_action r p =
      answered-Keeps Answer.action _ (ApiKeeps.create_action-Keeps c vm registry _ r.create_action)
  serve-Keeps Endpoint.api_list_actions r p =
      answered-Keeps Answer.action _ (api_actions-Keeps server c _)
  serve-Keeps Endpoint.api_get_action r p =
      answered-Keeps Answer.action _ (api_action-Keeps server c _)
  serve-Keeps Endpoint.api_update_action r p =
      answered-Keeps Answer.action _ (ApiKeeps.update_action-Keeps c vm registry _ r.update_action)
  serve-Keeps Endpoint.api_delete_action r p =
      answered-Keeps Answer.action _ (ApiKeeps.delete_action-Keeps c vm registry _)
  serve-Keeps Endpoint.api_list_deliveries r p =
      answered-Keeps Answer.delivery _ (api_deliveries-Keeps server c _ _)
  serve-Keeps Endpoint.api_get_delivery r p =
      answered-Keeps Answer.delivery _ (api_delivery-Keeps server c _)
  serve-Keeps Endpoint.api_list_attempts r p =
      answered-Keeps Answer.delivery _ (api_attempts-Keeps server c _)

  serve_found-Keeps :
      (r : Incoming) (o : Option (Endpoint × Params)) → Keeps Q (serve_found server r o)
  unfolding serve_found
  serve_found-Keeps r none = Keeps-pure (server.unmatched r)
  serve_found-Keeps r (some (e, p)) = serve-Keeps e r p

  -- Any request.
  pub handle-Keeps : (r : Incoming) → Keeps Q (handle server r)
  unfolding handle
  handle-Keeps r = serve_found-Keeps r (server.router routes r.method r.path)
