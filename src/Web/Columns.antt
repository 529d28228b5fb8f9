-- ===== src/Web/Columns.antt =====
-- web/action.go: the columns that a form of an action fills.
use Prim.Native.String.{◌++◌}
use nitrohook.Prelude.{String, Option, none, some, if◌then◌else◌}
use nitrohook.Model.{Uuid, RawMessage, ActionType}
use nitrohook.Store.Actions.{ActionCreateParams, ActionUpdateParams}
use nitrohook.Web.Pages.{Request, Forms, field, is_blank, given}

-- What the columns of the type get: a script or a configuration that is refused is left out.
pub record Columns : Type 0 where
  pub target_url : Option String
  pub signing_secret : Option String
  pub script_body : Option String
  pub config : Option RawMessage

abbrev pub no_columns : Columns
no_columns = record { target_url = none; signing_secret = none; script_body = none; config = none }

abbrev pub create_params : Uuid → ActionType → Option String → Columns → ActionCreateParams
create_params source_id type transform c = record {
  source_id = source_id;
  type = type;
  target_url = c.target_url;
  signing_secret = c.signing_secret;
  script_body = c.script_body;
  config = c.config;
  transform_script = transform;
}

abbrev pub update_params : Option String → Columns → ActionUpdateParams
update_params transform c = record {
  target_url = c.target_url;
  signing_secret = c.signing_secret;
  is_active = none;
  script_body = c.script_body;
  config = c.config;
  transform_script = transform;
}

abbrev pub webhook_columns : Forms → Request → Columns
webhook_columns f r =
    let url = field f r "target_url" in
    if is_blank url then no_columns else record no_columns {
      target_url = some url;
      signing_secret = given (field f r "signing_secret");
    }

-- The columns of an update, or the error that is shown.
pub data Change : Type 0 where
  change : Columns → Change
  refused : String → Change

abbrev pub config_change : Option (Option RawMessage) → Change
config_change none = refused "Failed to build action config"
config_change (some config) = change (record no_columns { config = config })

abbrev pub webhook_change : Forms → Request → Change
webhook_change f r =
    if is_blank (field f r "target_url")
    then refused "Target URL is required for webhook actions"
    else change (webhook_columns f r)

-- The outer none is a panic of the validation.
abbrev pub script_columns : String → Option (Option String) → Option Columns
script_columns body none = none
script_columns body (some none) = some (record no_columns { script_body = some body })
script_columns body (some (some e)) = some no_columns

abbrev pub script_change : String → Option (Option String) → Option Change
script_change body none = none
script_change body (some none) = some (change (record no_columns { script_body = some body }))
script_change body (some (some e)) = some (refused ("Invalid script: " ++ e))

abbrev pub config_columns : Option (Option RawMessage) → Columns
config_columns none = no_columns
config_columns (some config) = record no_columns { config = config }
