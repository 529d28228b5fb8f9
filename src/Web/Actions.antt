-- ===== src/Web/Actions.antt =====
-- web/action.go: the actions of a source, and their forms.
pub mod Config
pub mod Keeping
pub mod Scope
pub mod Unconfigured
use Prim.Native.String.{◌++◌}
use nitrohook.Prelude.{
  ℕ, String, Bool, true, false, Option, none, some, List, [], ◌∷◌, same, if◌then◌else◌,
}
use nitrohook.Model.{
  Uuid, RawMessage, Source, Action, ActionType, action_type_webhook, action_type_javascript,
}
use nitrohook.Io.{Result, ok, err, Host, Io, ◌>>=◌, ◌>>◌, pure, call}
use nitrohook.Script.{Vm, validate_action, validate_action_transform}
use nitrohook.Store.Sources
use nitrohook.Store.Actions
use nitrohook.Store.Actions.{ActionCreateParams, ActionUpdateParams}
use nitrohook.Web.Columns.{
  Change, Columns, change, config_change, config_columns, create_params, no_columns, refused,
  script_change, script_columns, update_params, webhook_change, webhook_columns,
}
use nitrohook.Web.Pages.{
  Request, Forms, Response, text, aborted, blank_source_data, field, is_blank, given,
}
use nitrohook.Web.Sources.{or_empty, or_text, fragment, with_source}
use nitrohook.Web.Scripts.{validated}
use nitrohook.Web.Actions.Config.{build_action_config}

abbrev pub type_or_webhook : String → ActionType
type_or_webhook type = if same type "" then action_type_webhook else type

module _ (host : Host) (vm : Vm) (f : Forms) (r : Request) where
  -- The card with the actions as they are now.
  unfoldable pub actions_card : Source → String → Io Response
  actions_card s success = do
    l ← Actions.list host s.id
    fragment "source-actions" "actions-card" (record blank_source_data {
      source = some s;
      actions = or_empty l;
      action_success = success;
    })

  abbrev pub found_or_none : {A : Type 0} → Result A → Option A
  found_or_none (ok a) = some a
  found_or_none (err e) = none

  -- The card of one action, read again, with an error.
  unfoldable pub edit_card : Source → Uuid → String → Io Response
  edit_card s id e = do
    a ← Actions.get_by_id host id
    l ← Actions.list host s.id
    fragment "source-actions" "action-edit-card" (record blank_source_data {
      source = some s;
      actions = or_empty l;
      edit_action = found_or_none a;
      action_error = e;
    })

  -- The transform script of the form: `valid` gets it, and `invalid` the error of its validation.
  unfoldable pub transform_verdict :
      String
      → Option (Option String)
      → (Option String → Io Response)
      → (String → Io Response)
      → Io Response
  transform_verdict script none valid invalid = pure aborted
  transform_verdict script (some none) valid invalid = valid (some script)
  transform_verdict script (some (some e)) valid invalid = invalid e

  unfoldable pub with_transform :
      (Option String → Io Response) → (String → Io Response) → Io Response
  with_transform valid invalid =
      let script = field f r "transform_script" in
      if is_blank script then valid none else do
        n ← call
        transform_verdict script (validated vm (validate_action_transform vm n script)) valid
            invalid

  -- A failing insertion is only logged.
  unfoldable pub create_row : Source → ActionType → Option String → Columns → Io Response
  create_row s type transform c = do
    Actions.create host (create_params s.id type transform c)
    actions_card s ""

  unfoldable pub create_script : Source → ActionType → Option String → Option Columns → Io Response
  create_script s type transform none = pure aborted
  create_script s type transform (some c) = create_row s type transform c

  unfoldable pub create_typed : Source → ActionType → Option String → Io Response
  create_typed s type transform =
      if same type action_type_webhook
      then create_row s type transform (webhook_columns f r)
      else if same type action_type_javascript
      then (let body = field f r "script_body" in
          if is_blank body then create_row s type transform no_columns else do
            n ← call
            create_script s type transform
                (script_columns body (validated vm (validate_action vm n body))))
      else create_row s type transform (config_columns (build_action_config f r type))

  unfoldable pub create_action : String → Io Response
  create_action slug = with_source host slug λ s.
      with_transform (create_typed s (type_or_webhook (r.form "type"))) (λ e. actions_card s "")

  -- An update that fails is shown, as is one that is refused.
  unfoldable pub updated : Source → Uuid → Result Action → Io Response
  updated s id (ok a) = actions_card s "Action updated"
  updated s id (err e) = edit_card s id "Failed to update action"

  unfoldable pub apply_change : Source → Uuid → Option String → Option Change → Io Response
  apply_change s id transform none = pure aborted
  apply_change s id transform (some (refused e)) = edit_card s id e
  apply_change s id transform (some (change c)) = do
    u ← Actions.update host id (update_params transform c)
    updated s id u

  unfoldable pub change_typed : Source → Action → Uuid → Option String → Io Response
  change_typed s a id transform =
      if same a.type action_type_webhook
      then apply_change s id transform (some (webhook_change f r))
      else if same a.type action_type_javascript
      then (let body = field f r "script_body" in
          if is_blank body
          then apply_change s id transform
              (some (refused "Script body is required for javascript actions"))
          else do
            n ← call
            apply_change s id transform
                (script_change body (validated vm (validate_action vm n body))))
      else apply_change s id transform (some (config_change (build_action_config f r a.type)))

  unfoldable pub or_bad_id : Option Uuid → (Uuid → Io Response) → Io Response
  or_bad_id none k = pure (text 400 "Invalid action ID")
  or_bad_id (some id) k = k id

  -- By the id and the slug of the path. The action need not be one of the source.
  unfoldable pub with_id : String → String → (Uuid → Source → Io Response) → Io Response
  unfolding or_bad_id
  with_id slug path_id k = or_bad_id (host.uuid_parse path_id) (λ id. with_source host slug (k id))

  unfoldable pub edit_action : String → String → Io Response
  edit_action slug path_id = with_id slug path_id λ id s. do
    a ← Actions.get_by_id host id
    or_text 404 "Action not found" a λ action. do
      l ← Actions.list host s.id
      fragment "source-actions" "action-edit-card" (record blank_source_data {
        source = some s;
        actions = or_empty l;
        edit_action = some action;
      })

  unfoldable pub update_action : String → String → Io Response
  update_action slug path_id = with_id slug path_id λ id s. do
    a ← Actions.get_by_id host id
    or_text 404 "Action not found" a λ action.
        with_transform (change_typed s action id)
          (λ e. edit_card s id ("Invalid transform script: " ++ e))

  unfoldable pub toggle_action : String → String → Io Response
  toggle_action slug path_id = with_id slug path_id λ id s. do
    Actions.update host id (record {
      target_url = none;
      signing_secret = none;
      is_active = some (same (r.form "is_active") "on");
      script_body = none;
      config = none;
      transform_script = none;
    })
    actions_card s ""

  unfoldable pub delete_action : String → String → Io Response
  delete_action slug path_id =
      with_id slug path_id λ id s. do Actions.delete host id; actions_card s ""
