-- ===== src/Tests/Sending.antt =====
-- The dispatchers and the signature, with concrete values for the calls out of the repository.
use Prim.Native.String.{◌++◌}
use nitrohook.Prelude.{
  ℕ, ◌≡◌, ◌≤◌, ◌<◌, ◌↔◌, ◌⊎◌, refl, true, none, some, List, [], ◌∷◌, length, zero,
}
use nitrohook.Model.{Action}
use nitrohook.Io.{HttpRequest}
use nitrohook.Signing.{verify}
use nitrohook.Dispatch.{get}
use nitrohook.Dispatch.Net.{
  pos, Net, parsed, malformed, SmtpConfig, TwilioConfig, answered, get_header, parse_config,
  IsAccepted, post, post-success,
}
use nitrohook.Dispatch.Webhook
use nitrohook.Dispatch.Webhook.{request-signed}
use nitrohook.Dispatch.Smtp
use nitrohook.Dispatch.Twilio
use nitrohook.Dispatch.Twilio.{truncate, truncate-bounds}
use nitrohook.Dispatch.{Registry}
use nitrohook.Dispatch.Twilio.{twilio_dispatcher}
use nitrohook.Handler.Actions.{CreateActionRequest, create}
use nitrohook.Handler.Actions.Config.{create-NeedsConfig}
use nitrohook.Tests.Setup.{host, vm, action, world}
use nitrohook.Model.{pending as waiting}

abbrev smtp_config : SmtpConfig
smtp_config = record {
  host = "mail";
  port = pos 25;
  username = "";
  password = "";
  from = "a@example.org";
  to = "b@example.org";
  subject = "";
}

abbrev twilio_config : TwilioConfig
twilio_config = record {
  account_sid = "AC1";
  auth_token = "t";
  from = "+1";
  to = "+2";
  body_tmpl = "";
}

abbrev pub net : Net
net = record {
  request_error = λ _. none;
  canonical = λ s. s;
  respond = λ _ r. answered 204 (λ _. "");
  send_mail = λ _ _. none;
  unmarshal_headers = λ _. some [];
  marshal_texts = λ _. "{}";
  indent = λ _. none;
  unmarshal_slack = λ _. malformed "no";
  unmarshal_smtp = λ _. parsed smtp_config;
  unmarshal_twilio = λ _. parsed twilio_config;
  utf8 = λ _. [];
  form_encode = λ _. "";
  basic_auth = λ u p. u;
  join_host_port = λ h p. h;
  decimal = λ _. "";
  int_text = λ _. "";
  hex_hmac = λ secret payload. payload;
}

abbrev signing : Action
signing = record (action "up") { signing_secret = some "s"; config = some "{}" }

abbrev request : HttpRequest
request = Webhook.request net signing "delivery" "{}" "{}"

-- "hi"
abbrev hi : List ℕ
hi = 72 ∷ 105 ∷ []

post-success_example :
    ((post net (λ n s. s) request (world "up" waiting)).0.success ≡ true)
    ↔ ((net.request_error request.url ≡ none) × IsAccepted (net.respond zero request))
post-success_example = post-success net (λ n s. s) request (world "up" waiting)

request-signed_example :
    (request.body ≡ "{}")
    × (get_header "X-Webhook-Signature-256" request.headers
        ≡ some ("sha256=" ++ net.hex_hmac "s" "{}"))
    × ((verify net.hex_hmac request.body "s" "sha256={}" ≡ true)
        ↔ ("sha256={}" ≡ "sha256=" ++ net.hex_hmac "s" "{}"))
request-signed_example = request-signed net signing "s" "delivery" "sha256={}" "{}" "{}" refl

validate_smtp_iff_example :
    (Smtp.validate net signing ≡ none) ↔ Smtp.HasFields (parse_config net.unmarshal_smtp signing)
validate_smtp_iff_example = Smtp.validate_smtp_iff net signing

truncate-bounds_example : (length (truncate hi) ≤ 1600) × ((truncate hi ≡ hi) ⊎ (1600 < length hi))
truncate-bounds_example = truncate-bounds hi

abbrev with_twilio : Registry
with_twilio = ("twilio", twilio_dispatcher net) ∷ []

abbrev create_request : CreateActionRequest
create_request = record {
  type = "twilio";
  target_url = none;
  signing_secret = none;
  script_body = none;
  transform_script = none;
}

create-NeedsConfig_example :
    (create host vm with_twilio "orders" (some create_request) (world "up" waiting)).1.db
    ≡ (world "up" waiting).db
unfolding Twilio.validate parse_config get
create-NeedsConfig_example =
    create-NeedsConfig host vm with_twilio "orders" create_request (twilio_dispatcher net)
      (world "up" waiting) refl (λ n a h. ("config is required", rw h refl))
