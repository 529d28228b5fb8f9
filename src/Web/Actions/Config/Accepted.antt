-- ===== src/Web/Actions/Config/Accepted.antt =====
-- What the dispatchers make of a configuration that comes from a form.
use nitrohook.Prelude.{
  String, ◌≡◌, ◌∙◌, sym, ap, ◌≢◌, ◌↔◌, refl, false, none, some, List, [], ◌∷◌, same, arith, eq_iff,
  if◌then◌else◌,
}
use nitrohook.Model.{
  RawMessage, Action, ActionType, action_type_slack, action_type_smtp, action_type_twilio,
}
use nitrohook.Dispatch.Net.{
  Net, ℤ, pos, Parsed, parsed, SlackConfig, SmtpConfig, TwilioConfig, parse_config,
}
use nitrohook.Dispatch.Slack
use nitrohook.Dispatch.Smtp
use nitrohook.Dispatch.Smtp.{validate_smtp_iff}
use nitrohook.Dispatch.Twilio
use nitrohook.Dispatch.Twilio.{validate_twilio_iff}
use nitrohook.Web.Pages.{Request, Forms, text, number, field}
use nitrohook.Web.Actions.Config.{
  Entry, slack_config, smtp_config, twilio_config, entries, build_action_config,
}

-- The text, or the number, of a key, and the empty value without it.
abbrev pub text_at : String → List Entry → String
text_at key [] = ""
text_at key ((k, number n) ∷ rest) = text_at key rest
text_at key ((k, text t) ∷ rest) = if same k key then t else text_at key rest

abbrev pub number_at : String → List Entry → ℤ
number_at key [] = pos 0
number_at key ((k, text t) ∷ rest) = number_at key rest
number_at key ((k, number n) ∷ rest) = if same k key then n else number_at key rest

abbrev pub slack_of : List Entry → SlackConfig
slack_of cfg = record {
  webhook_url = text_at "webhook_url" cfg;
  channel = text_at "channel" cfg;
  username = text_at "username" cfg;
}

abbrev pub smtp_of : List Entry → SmtpConfig
smtp_of cfg = record {
  host = text_at "host" cfg;
  port = number_at "port" cfg;
  username = text_at "username" cfg;
  password = text_at "password" cfg;
  from = text_at "from" cfg;
  to = text_at "to" cfg;
  subject = text_at "subject" cfg;
}

abbrev pub twilio_of : List Entry → TwilioConfig
twilio_of cfg = record {
  account_sid = text_at "account_sid" cfg;
  auth_token = text_at "auth_token" cfg;
  from = text_at "from" cfg;
  to = text_at "to" cfg;
  body_tmpl = text_at "body_template" cfg;
}

-- encoding/json: Unmarshal of what Marshal made of a map gives a structure whose fields are the
-- values of the map under the tags of the fields.
pub record ReadsBack (f : Forms) (net : Net) (cfg : List Entry) : Type 0 where
  pub slack :
      (json : RawMessage)
      → f.marshal_config cfg ≡ some json
      → net.unmarshal_slack json ≡ parsed (slack_of cfg)
  pub smtp :
      (json : RawMessage)
      → f.marshal_config cfg ≡ some json
      → net.unmarshal_smtp json ≡ parsed (smtp_of cfg)
  pub twilio :
      (json : RawMessage)
      → f.marshal_config cfg ≡ some json
      → net.unmarshal_twilio json ≡ parsed (twilio_of cfg)

module _ {A : Type 0} (unmarshal : String → Parsed A) where
  parse_config-parsed :
      (a : Action) (json : RawMessage) (cfg : A)
      → a.config ≡ some json
      → unmarshal json ≡ parsed cfg
      → parse_config unmarshal a ≡ parsed cfg
  unfolding parse_config
  parse_config-parsed a json cfg h k = rw (h, parse_config, k) refl

filled : (s : String) → same s "" ≡ false → s ≢ ""
filled s h e = ground (arith, eq_iff s "")

module _ (net : Net) (a : Action) where
  slack_valid :
      (cfg : SlackConfig)
      → parse_config net.unmarshal_slack a ≡ parsed cfg
      → same cfg.webhook_url "" ≡ false
      → Slack.validate net a ≡ none
  unfolding Slack.validate
  slack_valid cfg h e = rw (h, e) refl

  twilio_valid :
      (cfg : TwilioConfig)
      → parse_config net.unmarshal_twilio a ≡ parsed cfg
      → (same cfg.account_sid "" ≡ false)
        × (same cfg.auth_token "" ≡ false)
        × (same cfg.from "" ≡ false)
        × (same cfg.to "" ≡ false)
      → Twilio.validate net a ≡ none
  unfolding Twilio.HasFields
  twilio_valid cfg h e =
      (validate_twilio_iff net a).1 (rw h (filled _ e.0, filled _ e.1, filled _ e.2, filled _ e.3))

  smtp_valid :
      (cfg : SmtpConfig)
      → parse_config net.unmarshal_smtp a ≡ parsed cfg
      → (same cfg.host "" ≡ false) × (same cfg.from "" ≡ false) × (same cfg.to "" ≡ false)
      → (Smtp.validate net a ≡ none) ↔ (cfg.port ≢ pos 0)
  unfolding Smtp.HasFields
  smtp_valid cfg h e =
      let fields = rw h at (validate_smtp_iff net a) in
      ((λ v. (fields.0 v).3), (λ p. fields.1 (filled _ e.0, filled _ e.1, filled _ e.2, p)))

module _ (f : Forms) (r : Request) where
  slack_config-url :
      (cfg : List Entry) → slack_config f r ≡ some cfg → same (text_at "webhook_url" cfg) "" ≡ false
  unfolding slack_config
  slack_config-url cfg h = ground arith

  smtp_config-fields :
      (cfg : List Entry)
      → smtp_config f r ≡ some cfg
      → (same (text_at "host" cfg) "" ≡ false)
        × (same (text_at "from" cfg) "" ≡ false)
        × (same (text_at "to" cfg) "" ≡ false)
        × (number_at "port" cfg ≡ f.atoi_value (field f r "smtp_port"))
  unfolding smtp_config
  smtp_config-fields cfg h = ground arith

  twilio_config-fields :
      (cfg : List Entry)
      → twilio_config f r ≡ some cfg
      → (same (text_at "account_sid" cfg) "" ≡ false)
        × (same (text_at "auth_token" cfg) "" ≡ false)
        × (same (text_at "from" cfg) "" ≡ false)
        × (same (text_at "to" cfg) "" ≡ false)
  unfolding twilio_config
  twilio_config-fields cfg h = ground arith

  entries_slack : entries f r action_type_slack ≡ slack_config f r
  unfolding entries
  entries_slack = refl

  entries_smtp : entries f r action_type_smtp ≡ smtp_config f r
  unfolding entries
  entries_smtp = refl

  entries_twilio : entries f r action_type_twilio ≡ twilio_config f r
  unfolding entries
  entries_twilio = refl

  built :
      (type : ActionType) (json : RawMessage)
      → build_action_config f r type ≡ some (some json)
      → (cfg : List Entry) × (entries f r type ≡ some cfg) × (f.marshal_config cfg ≡ some json)
  unfolding build_action_config
  built type json h = ground arith

  -- A configuration that a form gives passes the validation of its dispatcher, if the JSON is read
  -- back as it was written: for Slack and Twilio always, for SMTP exactly when the port of the form
  -- is read as a number that is not 0.
  pub build_action_config-IsAccepted :
      (net : Net) (a : Action) (json : RawMessage)
      → ((cfg : List Entry) → entries f r a.type ≡ some cfg → ReadsBack f net cfg)
      → a.config ≡ some json
      → build_action_config f r a.type ≡ some (some json)
      → (a.type ≡ action_type_slack → Slack.validate net a ≡ none)
        × (a.type ≡ action_type_twilio → Twilio.validate net a ≡ none)
        × (a.type ≡ action_type_smtp
            → (Smtp.validate net a ≡ none) ↔ (f.atoi_value (field f r "smtp_port") ≢ pos 0))
  build_action_config-IsAccepted net a json reads config h =
      let (cfg, e, m) = built a.type json h in
      let back = reads cfg e in
      (
        (λ t.
            slack_valid net a (slack_of cfg)
              (parse_config-parsed net.unmarshal_slack a json _ config (back.slack json m))
              (slack_config-url cfg (sym entries_slack ∙ sym (ap (entries f r) t) ∙ e))),
        (λ t.
            twilio_valid net a (twilio_of cfg)
              (parse_config-parsed net.unmarshal_twilio a json _ config (back.twilio json m))
              (twilio_config-fields cfg (sym entries_twilio ∙ sym (ap (entries f r) t) ∙ e))),
        (λ t.
            let (host, from, to, port) =
              smtp_config-fields cfg (sym entries_smtp ∙ sym (ap (entries f r) t) ∙ e) in
            rw (sym port) (
              smtp_valid net a (smtp_of cfg)
                (parse_config-parsed net.unmarshal_smtp a json _ config (back.smtp json m))
                (host, from, to))),
      )
