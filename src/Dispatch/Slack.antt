-- ===== src/Dispatch/Slack.antt =====
-- internal/dispatch/slack.go: a message to a Slack webhook.
use Prim.Native.String.{◌++◌}
use nitrohook.Prelude.{
  arith, ◌≤◌, ℕ, String, ◌≡◌, refl, Option, none, some, List, [], ◌∷◌, same, if◌then◌else◌,
}
use mathlib.Core.List.{◌++◌ as append}
use nitrohook.Model.{RawMessage, Action}
use nitrohook.Io.{HttpRequest, World, Io, pure}
use nitrohook.Script.{returned}
use nitrohook.Dispatch.{Result, Dispatcher}
use nitrohook.Dispatch.Net.{
  Net, Parsed, parsed, malformed, SlackConfig, failure, set_header, parse_config, post, post-db,
  post-calls,
}

checked : Parsed SlackConfig → Option String
checked (malformed e) = some e
checked (parsed cfg) =
    if same cfg.webhook_url ""
    then some "config.webhook_url is required for slack actions"
    else none

abbrev pub describe : Net → ℕ → String → String
describe net status body = "Slack HTTP " ++ net.decimal status ++ ": " ++ body

-- A key with its value, if that is not empty.
abbrev pub optional : String → String → List (String × String)
optional key value = if same value "" then [] else (key, value) ∷ []

module _ (net : Net) where
  unfoldable pub validate : Action → Option String
  unfolding checked
  validate action = checked (parse_config net.unmarshal_slack action)

  unfoldable pub request : SlackConfig → String → RawMessage → HttpRequest
  request cfg delivery_id payload = record {
    url = cfg.webhook_url;
    headers = set_header (net.canonical "Content-Type") "application/json" [];
    body = net.marshal_texts (
        ("text", "Webhook delivery `" ++ delivery_id ++ "`:\n```" ++ payload ++ "```")
        ∷ append (optional "channel" cfg.channel) (optional "username" cfg.username));
  }

  unfoldable pub dispatch_config : Parsed SlackConfig → String → RawMessage → Io Result
  dispatch_config (malformed e) delivery_id payload = pure (failure e)
  dispatch_config (parsed cfg) delivery_id payload =
      post net (describe net) (request cfg delivery_id payload)

  unfoldable pub dispatch : Action → String → RawMessage → RawMessage → Io Result
  unfolding dispatch_config
  dispatch action delivery_id payload headers =
      dispatch_config (parse_config net.unmarshal_slack action) delivery_id payload

  dispatch_config-db :
      (c : Parsed SlackConfig) (id : String) (payload : RawMessage) (w : World)
      → (dispatch_config c id payload w).1.db ≡ w.db
  unfolding dispatch_config pure
  dispatch_config-db (malformed e) id payload w = refl
  dispatch_config-db (parsed cfg) id payload w = post-db net _ (request cfg id payload) w

  pub dispatch-db :
      (a : Action) (id : String) (payload headers : RawMessage) (w : World)
      → (dispatch a id payload headers w).1.db ≡ w.db
  unfolding dispatch
  dispatch-db a id payload headers w =
      dispatch_config-db (parse_config net.unmarshal_slack a) id payload w

  dispatch_config-calls :
      (c : Parsed SlackConfig) (id : String) (payload : RawMessage) (w : World)
      → w.calls ≤ (dispatch_config c id payload w).1.calls
  unfolding dispatch_config pure
  dispatch_config-calls (malformed e) id payload w = omega arith
  dispatch_config-calls (parsed cfg) id payload w = post-calls net _ (request cfg id payload) w

  pub dispatch-calls :
      (a : Action) (id : String) (payload headers : RawMessage) (w : World)
      → w.calls ≤ (dispatch a id payload headers w).1.calls
  unfolding dispatch
  dispatch-calls a id payload headers w =
      dispatch_config-calls (parse_config net.unmarshal_slack a) id payload w

  abbrev pub slack_dispatcher : Dispatcher
  slack_dispatcher = record {
    validate = λ _ a. returned (validate a);
    dispatch = dispatch;
    dispatch-db = dispatch-db;
    dispatch-calls = dispatch-calls;
  }
