-- ===== src/Routes.antt =====
-- cmd/api/main.go: the table of the routes, and the route that a path matches.
use nitrohook.Prelude.{
  String, Bool, true, false, Option, none, some, List, [], ◌∷◌, ◌++◌, same, if◌then◌else◌, In, ◌≡◌,
}

pub data Method : Type 0 where
  get post patch delete : Method

unfoldable pub same_method : Method → Method → Bool
same_method get get = true
same_method post post = true
same_method patch patch = true
same_method delete delete = true
same_method _ _ = false

-- A segment of a route's path: a text, or a parameter such as `:slug`.
pub data Segment : Type 0 where
  lit : String → Segment
  named : String → Segment

-- The handlers of the pages that answer with a page.
pub data PageEndpoint : Type 0 where
  web_sources web_create_source web_source_detail web_source_script : PageEndpoint
  web_source_actions web_source_events web_forward_all web_forward : PageEndpoint
  web_update_source web_delete_source web_update_mode web_update_script : PageEndpoint
  web_clear_script web_create_action web_edit_action web_update_action : PageEndpoint
  web_toggle_action web_delete_action web_deliveries web_delivery_detail : PageEndpoint

-- The functions that the routes name.
pub data Endpoint : Type 0 where
  healthz metrics readyz home : Endpoint
  web : PageEndpoint → Endpoint
  web_test_script webhook_ingest : Endpoint
  api_list_sources api_create_source api_get_source api_update_source api_delete_source : Endpoint
  api_create_action api_list_actions api_get_action api_update_action : Endpoint
  api_delete_action : Endpoint
  api_list_deliveries api_get_delivery api_list_attempts : Endpoint

pub record Route : Type 0 where
  pub method : Method
  pub pattern : List Segment
  pub endpoint : Endpoint

abbrev pub route : Method → List Segment → Endpoint → Route
route m p e = record { method = m; pattern = p; endpoint = e }

-- The prefixes of the groups of routes.
abbrev source_path : List Segment → List Segment
source_path rest = lit "sources" ∷ named "slug" ∷ rest

abbrev api_sources : List Segment → List Segment
api_sources rest = lit "api" ∷ lit "sources" ∷ rest

abbrev api_source : List Segment → List Segment
api_source rest = api_sources (named "sourceSlug" ∷ rest)

abbrev api_deliveries : List Segment → List Segment
api_deliveries rest = lit "api" ∷ lit "deliveries" ∷ rest

abbrev pub ops_routes : List Route
ops_routes =
    route get (lit "healthz" ∷ []) healthz
    ∷ route get (lit "metrics" ∷ []) metrics
    ∷ route get (lit "readyz" ∷ []) readyz
    ∷ []

abbrev pub web_routes : List Route
web_routes =
    route get [] home
    ∷ route get (lit "sources" ∷ []) (web web_sources)
    ∷ route post (lit "sources" ∷ []) (web web_create_source)
    ∷ route get (source_path []) (web web_source_detail)
    ∷ route get (source_path (lit "script" ∷ [])) (web web_source_script)
    ∷ route get (source_path (lit "actions" ∷ [])) (web web_source_actions)
    ∷ route get (source_path (lit "events" ∷ [])) (web web_source_events)
    ∷ route post (source_path (lit "events" ∷ lit "forward-all" ∷ [])) (web web_forward_all)
    ∷ route post (source_path (lit "events" ∷ named "id" ∷ lit "forward" ∷ [])) (web web_forward)
    ∷ route post (source_path (lit "update" ∷ [])) (web web_update_source)
    ∷ route delete (source_path []) (web web_delete_source)
    ∷ route post (source_path (lit "mode" ∷ [])) (web web_update_mode)
    ∷ route post (source_path (lit "script" ∷ [])) (web web_update_script)
    ∷ route post (source_path (lit "script" ∷ lit "clear" ∷ [])) (web web_clear_script)
    ∷ route post (source_path (lit "script" ∷ lit "test" ∷ [])) web_test_script
    ∷ route post (source_path (lit "actions" ∷ [])) (web web_create_action)
    ∷ route get (source_path (lit "actions" ∷ named "id" ∷ lit "edit" ∷ [])) (web web_edit_action)
    ∷ route post (source_path (lit "actions" ∷ named "id" ∷ lit "update" ∷ []))
        (web web_update_action)
    ∷ route post (source_path (lit "actions" ∷ named "id" ∷ lit "toggle" ∷ []))
        (web web_toggle_action)
    ∷ route delete (source_path (lit "actions" ∷ named "id" ∷ [])) (web web_delete_action)
    ∷ route get (lit "deliveries" ∷ []) (web web_deliveries)
    ∷ route get (lit "deliveries" ∷ named "id" ∷ []) (web web_delivery_detail)
    ∷ []

abbrev pub api_routes : List Route
api_routes =
    route get (api_sources []) api_list_sources
    ∷ route post (api_sources []) api_create_source
    ∷ route get (api_source []) api_get_source
    ∷ route patch (api_source []) api_update_source
    ∷ route delete (api_source []) api_delete_source
    ∷ route post (api_source (lit "actions" ∷ [])) api_create_action
    ∷ route get (api_source (lit "actions" ∷ [])) api_list_actions
    ∷ route get (api_source (lit "actions" ∷ named "id" ∷ [])) api_get_action
    ∷ route patch (api_source (lit "actions" ∷ named "id" ∷ [])) api_update_action
    ∷ route delete (api_source (lit "actions" ∷ named "id" ∷ [])) api_delete_action
    ∷ route get (api_deliveries []) api_list_deliveries
    ∷ route get (api_deliveries (named "id" ∷ [])) api_get_delivery
    ∷ route get (api_deliveries (named "id" ∷ lit "attempts" ∷ [])) api_list_attempts
    ∷ []

unfoldable pub routes : List Route
routes =
    ops_routes
    ++ web_routes
    ++ route post (lit "webhooks" ∷ named "sourceSlug" ∷ []) webhook_ingest ∷ api_routes

-- The parameters of a path by their names.
abbrev pub Params : Type 0
Params = List (String × String)

-- c.Param: the empty text for a name that the route has not.
unfoldable pub param : Params → String → String
param [] name = ""
param ((key, value) ∷ rest) name = if same key name then value else param rest name

abbrev pub with_param : String → String → Option Params → Option Params
with_param name value none = none
with_param name value (some p) = some ((name, value) ∷ p)

-- The parameters of a path that a pattern matches, as gin documents patterns. A path is the list
-- of its segments, of which none is empty.
unfoldable pub match_path : List Segment → List String → Option Params
match_path [] [] = some []
match_path [] (x ∷ xs) = none
match_path (s ∷ ss) [] = none
match_path (lit t ∷ ss) (x ∷ xs) = let rest = match_path ss xs in if same t x then rest else none
match_path (named n ∷ ss) (x ∷ xs) = with_param n x (match_path ss xs)

unfoldable pub match_route : Route → Method → List String → Option Params
unfolding same_method match_path
match_route r m path = if same_method r.method m then match_path r.pattern path else none

-- The router of gin: for the table of the routes, the method and the path of a request, the
-- handler and the parameters that it calls it with.
abbrev pub Router : Type 0
Router = List Route → Method → List String → Option (Endpoint × Params)

-- What gin documents of it: it calls the handler of a route that matches, with the parameters of
-- the path, and none only where no route matches. Which one it calls where several match is open.
pub record IsRouter (router : Router) : Type 0 where
  pub found :
      (table : List Route) (m : Method) (path : List String) (e : Endpoint) (p : Params)
      → router table m path ≡ some (e, p)
      → (r : Route) × In r table × (e ≡ r.endpoint) × (match_route r m path ≡ some p)
  pub missed :
      (table : List Route) (m : Method) (path : List String) (r : Route)
      → router table m path ≡ none
      → In r table
      → match_route r m path ≡ none
