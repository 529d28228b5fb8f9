-- ===== src/Web/Actions/Config.antt =====
-- buildActionConfig of web/action.go: the configuration that a form gives.
pub mod Accepted
use nitrohook.Prelude.{
  String, Bool, true, false, ◌||◌, Option, none, some, List, [], ◌∷◌, ◌++◌, same, if◌then◌else◌,
}
use nitrohook.Model.{
  RawMessage, ActionType, action_type_slack, action_type_smtp, action_type_twilio,
}
use nitrohook.Web.Pages.{Request, Forms, ConfigValue, text, number, field, is_blank}

-- An entry of the map `cfg`.
abbrev pub Entry : Type 0
Entry = String × ConfigValue

module _ (f : Forms) (r : Request) where
  -- The entry for a field of the form, if that is not empty.
  abbrev pub optional : String → String → List Entry
  optional key name =
      let value = field f r name in if is_blank value then [] else (key, text value) ∷ []

  -- `none` stands for the nil map.
  unfoldable pub slack_config : Option (List Entry)
  slack_config =
      let url = field f r "slack_webhook_url" in
      if is_blank url
      then none
      else some (
          ("webhook_url", text url)
          ∷ (optional "channel" "slack_channel" ++ optional "username" "slack_username"))

  unfoldable pub smtp_config : Option (List Entry)
  smtp_config =
      let host = field f r "smtp_host" in
      let from = field f r "smtp_from" in
      let to = field f r "smtp_to" in
      let port = field f r "smtp_port" in
      if is_blank host || is_blank from || is_blank to || is_blank port
      then none
      else some (
          ("host", text host)
          ∷ ("port", number (f.atoi_value port))
          ∷ ("from", text from)
          ∷ ("to", text to)
          ∷ (optional "username" "smtp_username"
              ++ (optional "password" "smtp_password" ++ optional "subject" "smtp_subject")))

  unfoldable pub twilio_config : Option (List Entry)
  twilio_config =
      let sid = field f r "twilio_account_sid" in
      let token = field f r "twilio_auth_token" in
      let from = field f r "twilio_from" in
      let to = field f r "twilio_to" in
      if is_blank sid || is_blank token || is_blank from || is_blank to
      then none
      else some (
          ("account_sid", text sid)
          ∷ ("auth_token", text token)
          ∷ ("from", text from)
          ∷ ("to", text to)
          ∷ optional "body_template" "twilio_body_template")

  unfoldable pub entries : ActionType → Option (List Entry)
  unfolding slack_config smtp_config twilio_config
  entries type =
      if same type action_type_slack
      then slack_config
      else if same type action_type_smtp
      then smtp_config
      else if same type action_type_twilio
      then twilio_config
      else none

  -- `none` is the error of Marshal, `some none` the result (nil, nil).
  unfoldable pub build_action_config : ActionType → Option (Option RawMessage)
  unfolding entries
  build_action_config type = elim (entries type) [
    | none ↦ some none
    | some cfg ↦ elim (f.marshal_config cfg) [ none ↦ none | some json ↦ some (some json) ]
  ]
