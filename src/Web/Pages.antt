-- ===== src/Web/Pages.antt =====
-- web/handler.go: what the pages show, and the answers of the handlers. A page is its name, the
-- fragment of it if only that is rendered, and the data that the template gets.
use nitrohook.Prelude.{ℕ, String, Bool, Option, none, some, List, [], same, if◌then◌else◌}
use nitrohook.Model.{Uuid, Source, Action, Delivery, DeliveryAttempt}
use nitrohook.Dispatch.Net.{ℤ}

pub record SourcesData : Type 0 where
  pub nav : String
  pub sources : List Source
  pub action_counts : List (Uuid × ℕ)
  pub error : String

pub record SourceData : Type 0 where
  pub nav : String
  pub source : Option Source
  pub actions : List Action
  pub deliveries : List Delivery
  pub webhook_url : String
  pub active_tab : String
  pub error : String
  pub script_error : String
  pub script_success : String
  pub edit_action : Option Action
  pub action_error : String
  pub action_success : String

pub record DeliveriesData : Type 0 where
  pub nav : String
  pub sources : List Source
  pub deliveries : List Delivery
  pub source_filter : String

pub record DeliveryData : Type 0 where
  pub nav : String
  pub delivery : Delivery
  pub attempts : List DeliveryAttempt

pub data PageData : Type 0 where
  sources_data : SourcesData → PageData
  source_data : SourceData → PageData
  deliveries_data : DeliveriesData → PageData
  delivery_data : DeliveryData → PageData

-- `redirect` is the status 303, `hx_redirect` and `refresh` the status 200 with the headers
-- HX-Redirect and HX-Refresh, and `aborted` a panic, which the recovery of the router answers by
-- the status 500.
pub data Response : Type 0 where
  text : ℕ → String → Response
  redirect : String → Response
  hx_redirect : String → Response
  refresh : Response
  rendered : String → Option String → PageData → Response
  aborted : Response

-- A request: `form` is PostForm and `header` GetHeader, which are empty where nothing is given.
pub record Request : Type 0 where
  pub form : String → String
  pub header : String → String
  pub tls : Bool
  pub host : String

-- A value of a configuration.
pub data ConfigValue : Type 0 where
  text : String → ConfigValue
  number : ℤ → ConfigValue

-- strings.TrimSpace, the value that strconv.Atoi returns with or without an error, and
-- json.Marshal of a map, none where it fails.
pub record Forms : Type 0 where
  pub trim : String → String
  pub atoi_value : String → ℤ
  pub marshal_config : List (String × ConfigValue) → Option String

-- The fields that a literal leaves out.
abbrev pub blank_source_data : SourceData
blank_source_data = record {
  nav = "";
  source = none;
  actions = [];
  deliveries = [];
  webhook_url = "";
  active_tab = "";
  error = "";
  script_error = "";
  script_success = "";
  edit_action = none;
  action_error = "";
  action_success = "";
}

-- A form's field without the white space at its ends.
abbrev pub field : Forms → Request → String → String
field f r name = f.trim (r.form name)

abbrev pub is_blank : String → Bool
is_blank s = same s ""

-- A text that is set unless it is empty.
abbrev pub given : String → Option String
given s = if same s "" then none else some s
