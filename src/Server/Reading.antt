-- ===== src/Server/Reading.antt =====
-- The handlers that only read keep every invariant.
use nitrohook.Prelude.{String, Option, none, some, List, [], ◌∷◌}
use nitrohook.Model.{Uuid, Source, Delivery}
use nitrohook.Io.{Db, Host, Result, ok, err}
use nitrohook.Io.Keeps.{Keeps, Keeps-pure, Keeps-bind, Keeps-query, keeps_rules}
use nitrohook.Script.{Vm}
use nitrohook.Store.Keeping.{ClientKeeps}
use nitrohook.Store.Deliveries as DeliveryStore
use nitrohook.Store.Actions as ActionStore
use nitrohook.Store.Sources as SourceStore
use nitrohook.Handler.Sources
use nitrohook.Handler.Actions
use nitrohook.Handler.Actions.{list_of}
use nitrohook.Handler.Deliveries
use nitrohook.Handler.Keeps as ApiKeeps
use nitrohook.Web.Pages.{Request, Forms}
use nitrohook.Web.Keeps.{or_text-Keeps, with_source-Keeps}
use nitrohook.Web.Actions.Keeping as ActionKeeps
use nitrohook.Web.Sources.{
  or_zero, action_counts, sources, source_detail, source_script, source_actions, source_events,
}
use nitrohook.Web.Scripts.{trial_run, trial_on, trial_by, trial_from, test_source_script}
use nitrohook.Web.Actions.{edit_action}
use nitrohook.Web.Deliveries.{deliveries, delivery_of, delivery_detail}
use nitrohook.Server.{Server}

module _ {host : Host} {Q : Db → Type 0} (c : ClientKeeps host Q) where
  pub action_counts-Keeps : (l : List Source) → Keeps Q (action_counts host l)
  unfolding action_counts ActionStore.count_by_source
  action_counts-Keeps [] = Keeps-pure _
  action_counts-Keeps (s ∷ rest) =
      Keeps-bind (ActionStore.count_by_source host s.id) _ (Keeps-query host _) λ n.
        Keeps-bind (action_counts host rest) _ (action_counts-Keeps rest)
          λ counts. Keeps-pure ((s.id, or_zero n) ∷ counts)

  pub sources-Keeps : Keeps Q (sources host)
  unfolding sources SourceStore.list
  sources-Keeps = search (keeps_rules, or_text-Keeps c, action_counts-Keeps) depth 10

  pub source_detail-Keeps : (r : Request) (slug : String) → Keeps Q (source_detail host r slug)
  unfolding source_detail
  source_detail-Keeps r slug = search (keeps_rules, with_source-Keeps c)

  pub source_script-Keeps : (slug : String) → Keeps Q (source_script host slug)
  unfolding source_script DeliveryStore.list
  source_script-Keeps slug = search (keeps_rules, with_source-Keeps c) depth 10

  pub source_actions-Keeps : (r : Request) (slug : String) → Keeps Q (source_actions host r slug)
  unfolding source_actions ActionStore.list
  source_actions-Keeps r slug = search (keeps_rules, with_source-Keeps c, or_text-Keeps c) depth 12

  pub source_events-Keeps : (r : Request) (slug : String) → Keeps Q (source_events host r slug)
  unfolding source_events DeliveryStore.list
  source_events-Keeps r slug = search (keeps_rules, with_source-Keeps c) depth 10

  pub edit_action-Keeps :
      (vm : Vm) (f : Forms) (r : Request) (slug id : String)
      → Keeps Q (edit_action host vm f r slug id)
  unfolding edit_action ActionStore.get_by_id ActionStore.list
  edit_action-Keeps vm f r slug id =
      ActionKeeps.with_id-Keeps c vm f r slug id _
        λ u s. search (keeps_rules, or_text-Keeps c) depth 12

  pub deliveries-Keeps : (filter : String) → Keeps Q (deliveries host filter)
  unfolding deliveries SourceStore.list DeliveryStore.list
  deliveries-Keeps filter = search (keeps_rules, or_text-Keeps c) depth 12

  pub delivery_of-Keeps : (id : Option Uuid) → Keeps Q (delivery_of host id)
  unfolding delivery_of DeliveryStore.get_by_id DeliveryStore.list_attempts_by_delivery
  delivery_of-Keeps none = Keeps-pure _
  delivery_of-Keeps (some id) = search (keeps_rules, or_text-Keeps c) depth 12

  pub delivery_detail-Keeps : (id : String) → Keeps Q (delivery_detail host id)
  unfolding delivery_detail
  delivery_detail-Keeps id = delivery_of-Keeps (host.uuid_parse id)

  module _ (vm : Vm) (raw : String → vm.Object) where
    trial_run-Keeps :
        (s : Source) (body : String) (d : Delivery) → Keeps Q (trial_run host vm raw s body d)
    unfolding trial_run ActionStore.list_active_by_source
    trial_run-Keeps s body d = search (keeps_rules)

    trial_on-Keeps :
        (f : Forms) (s : Source) (body : String) (d : Result Delivery)
        → Keeps Q (trial_on host vm raw f s body d)
    unfolding trial_on
    trial_on-Keeps f s body (err e) = Keeps-pure _
    trial_on-Keeps f s body (ok d) = search (keeps_rules, trial_run-Keeps)

    trial_by-Keeps :
        (f : Forms) (s : Source) (body : String) (id : Option Uuid)
        → Keeps Q (trial_by host vm raw f s body id)
    unfolding trial_by DeliveryStore.get_by_id
    trial_by-Keeps f s body none = Keeps-pure _
    trial_by-Keeps f s body (some id) = search (keeps_rules, trial_on-Keeps)

    trial_from-Keeps :
        (f : Forms) (r : Request) (s : Result Source) → Keeps Q (trial_from host vm raw f r s)
    unfolding trial_from
    trial_from-Keeps f r (err e) = Keeps-pure _
    trial_from-Keeps f r (ok s) = trial_by-Keeps f s _ _

    pub test_source_script-Keeps :
        (f : Forms) (r : Request) (slug : String)
        → Keeps Q (test_source_script host vm raw f r slug)
    unfolding test_source_script SourceStore.get_by_slug
    test_source_script-Keeps f r slug = search (keeps_rules, trial_from-Keeps)

module _ (server : Server) {Q : Db → Type 0} (c : ClientKeeps server.host Q) where
  open server use {host, vm, registry, texts}

  pub api_source-Keeps : (slug : String) → Keeps Q (Sources.get host vm texts slug)
  unfolding Sources.get SourceStore.get_by_slug
  api_source-Keeps slug = search (keeps_rules)

  pub api_sources-Keeps : Keeps Q (Sources.list host vm texts)
  unfolding Sources.list SourceStore.list
  api_sources-Keeps = search (keeps_rules)

  list_of-Keeps : (s : Source) → Keeps Q (list_of host vm registry s)
  unfolding list_of ActionStore.list
  list_of-Keeps s = search (keeps_rules)

  pub api_actions-Keeps : (slug : String) → Keeps Q (Actions.list host vm registry slug)
  unfolding Actions.list SourceStore.get_by_slug
  api_actions-Keeps slug =
      search (keeps_rules, ApiKeeps.or_not_found-Keeps c vm registry, list_of-Keeps)

  pub api_action-Keeps : (id : String) → Keeps Q (Actions.get host vm registry id)
  unfolding Actions.get ActionStore.get_by_id
  api_action-Keeps id =
      ApiKeeps.by_id-Keeps c vm registry (host.uuid_parse id) _ λ u. search (keeps_rules)

  pub api_deliveries-Keeps :
      (slug limit : String) → Keeps Q (Deliveries.list host server.atoi slug limit)
  unfolding Deliveries.list DeliveryStore.list
  api_deliveries-Keeps slug limit = search (keeps_rules)

  get_by-Keeps : (id : Option Uuid) → Keeps Q (Deliveries.get_by host id)
  unfolding Deliveries.get_by DeliveryStore.get_by_id
  get_by-Keeps none = Keeps-pure _
  get_by-Keeps (some id) = search (keeps_rules)

  list_found-Keeps : (id : Uuid) (d : Result Delivery) → Keeps Q (Deliveries.list_found host id d)
  unfolding Deliveries.list_found DeliveryStore.list_attempts_by_delivery
  list_found-Keeps id (err e) = Keeps-pure _
  list_found-Keeps id (ok d) = search (keeps_rules)

  list_by-Keeps : (id : Option Uuid) → Keeps Q (Deliveries.list_by host id)
  unfolding Deliveries.list_by DeliveryStore.get_by_id
  list_by-Keeps none = Keeps-pure _
  list_by-Keeps (some id) = search (keeps_rules, list_found-Keeps)

  pub api_delivery-Keeps : (id : String) → Keeps Q (Deliveries.get host id)
  unfolding Deliveries.get
  api_delivery-Keeps id = get_by-Keeps (host.uuid_parse id)

  pub api_attempts-Keeps : (id : String) → Keeps Q (Deliveries.list_attempts host id)
  unfolding Deliveries.list_attempts
  api_attempts-Keeps id = list_by-Keeps (host.uuid_parse id)
