-- ===== src/Dispatch/Twilio.antt =====
-- internal/dispatch/twilio.go: a text message through the API of Twilio.
use Prim.Native.String.{◌++◌}
use nitrohook.Prelude.{
  ◌≤◌, ℕ, String, ◌≡◌, refl, Option, none, some, List, [], ◌∷◌, same, ltb, length, take,
  length-take, length-append, ◌≢◌, ◌≤◌, ◌↔◌, eq_iff, Bool-cases, inl, inr, ◌⊎◌, ◌<◌, false, ltb→lt,
  arith, if◌then◌else◌,
}
use mathlib.Core.List.{◌++◌ as append}
use nitrohook.Model.{RawMessage, Action}
use nitrohook.Io.{HttpRequest, World, Io, pure}
use nitrohook.Script.{returned}
use nitrohook.Dispatch.{Result, Dispatcher}
use nitrohook.Dispatch.Net.{
  Net, Parsed, parsed, malformed, TwilioConfig, failure, set_header, parse_config, post, post-db,
  post-calls,
}

unfoldable checked : Parsed TwilioConfig → Option String
checked (malformed e) = some e
checked (parsed cfg) =
    if same cfg.account_sid ""
    then some "config.account_sid is required for twilio actions"
    else if same cfg.auth_token ""
    then some "config.auth_token is required for twilio actions"
    else if same cfg.from ""
    then some "config.from is required for twilio actions"
    else if same cfg.to ""
    then some "config.to is required for twilio actions"
    else none

abbrev pub describe : Net → ℕ → String → String
describe net status body = "Twilio HTTP " ++ net.decimal status ++ ": " ++ body

-- The slice works on bytes.
unfoldable pub truncate : List ℕ → List ℕ
truncate body =
    if ltb 1600 (length body) then append (take 1597 body) (b'.' ∷ b'.' ∷ b'.' ∷ []) else body

not_long : (n : ℕ) → ltb 1600 n ≡ false → n ≤ 1600
not_long n e = ground arith

-- The three bytes "..." after what is kept.
length-shortened :
    (body : List ℕ) → length (append (take 1597 body) (b'.' ∷ b'.' ∷ b'.' ∷ [])) ≤ 1600
length-shortened body =
    rw (length-append (take 1597 body) (b'.' ∷ b'.' ∷ b'.' ∷ []))
      (omega (arith, length-take 1597 body))

-- A message to be sent has at most 1600 bytes, and it is the whole text unless that has more.
pub truncate-bounds :
    (body : List ℕ)
    → (length (truncate body) ≤ 1600) × ((truncate body ≡ body) ⊎ (1600 < length body))
unfolding truncate
truncate-bounds body = elim (Bool-cases (ltb 1600 (length body))) [
  | inl e ↦ rw e (length-shortened body, inr (ltb→lt 1600 (length body) e))
  | inr e ↦ rw e (not_long (length body) e, inl refl)
]

-- The fields that a Twilio action needs.
unfoldable pub HasFields : Parsed TwilioConfig → Type 0
HasFields (malformed e) = ⊥
HasFields (parsed cfg) =
    (cfg.account_sid ≢ "") × (cfg.auth_token ≢ "") × (cfg.from ≢ "") × (cfg.to ≢ "")

checked_iff : (c : Parsed TwilioConfig) → (checked c ≡ none) ↔ HasFields c
unfolding checked HasFields
checked_iff (malformed e) = ground arith
checked_iff (parsed cfg) = ground (
  arith,
  eq_iff cfg.account_sid "",
  eq_iff cfg.auth_token "",
  eq_iff cfg.from "",
  eq_iff cfg.to "",
)

module _ (net : Net) where
  unfoldable pub validate : Action → Option String
  unfolding checked
  validate action = checked (parse_config net.unmarshal_twilio action)

  -- A Twilio action is valid exactly when its configuration can be read and has all its fields.
  pub validate_twilio_iff :
      (a : Action) → (validate a ≡ none) ↔ HasFields (parse_config net.unmarshal_twilio a)
  unfolding validate
  validate_twilio_iff a = checked_iff (parse_config net.unmarshal_twilio a)

  unfoldable pub sms_body : TwilioConfig → String → RawMessage → List ℕ
  unfolding truncate
  sms_body cfg delivery_id payload = truncate (
      net.utf8 (
        if same cfg.body_tmpl ""
        then "Webhook " ++ delivery_id ++ ": " ++ payload
        else cfg.body_tmpl))

  unfoldable pub request : TwilioConfig → String → RawMessage → HttpRequest
  unfolding sms_body
  request cfg delivery_id payload = record {
    url = "https://api.twilio.com/2010-04-01/Accounts/" ++ cfg.account_sid ++ "/Messages.json";
    headers =
        set_header (net.canonical "Authorization") (net.basic_auth cfg.account_sid cfg.auth_token)
          (set_header (net.canonical "Content-Type") "application/x-www-form-urlencoded" []);
    body = net.form_encode (
        ("From", net.utf8 cfg.from)
        ∷ ("To", net.utf8 cfg.to)
        ∷ ("Body", sms_body cfg delivery_id payload)
        ∷ []);
  }

  unfoldable pub dispatch_config : Parsed TwilioConfig → String → RawMessage → Io Result
  dispatch_config (malformed e) delivery_id payload = pure (failure e)
  dispatch_config (parsed cfg) delivery_id payload =
      post net (describe net) (request cfg delivery_id payload)

  unfoldable pub dispatch : Action → String → RawMessage → RawMessage → Io Result
  unfolding dispatch_config
  dispatch action delivery_id payload headers =
      dispatch_config (parse_config net.unmarshal_twilio action) delivery_id payload

  dispatch_config-db :
      (c : Parsed TwilioConfig) (id : String) (payload : RawMessage) (w : World)
      → (dispatch_config c id payload w).1.db ≡ w.db
  unfolding dispatch_config pure
  dispatch_config-db (malformed e) id payload w = refl
  dispatch_config-db (parsed cfg) id payload w = post-db net _ (request cfg id payload) w

  pub dispatch-db :
      (a : Action) (id : String) (payload headers : RawMessage) (w : World)
      → (dispatch a id payload headers w).1.db ≡ w.db
  unfolding dispatch
  dispatch-db a id payload headers w =
      dispatch_config-db (parse_config net.unmarshal_twilio a) id payload w

  dispatch_config-calls :
      (c : Parsed TwilioConfig) (id : String) (payload : RawMessage) (w : World)
      → w.calls ≤ (dispatch_config c id payload w).1.calls
  unfolding dispatch_config pure
  dispatch_config-calls (malformed e) id payload w = omega arith
  dispatch_config-calls (parsed cfg) id payload w = post-calls net _ (request cfg id payload) w

  pub dispatch-calls :
      (a : Action) (id : String) (payload headers : RawMessage) (w : World)
      → w.calls ≤ (dispatch a id payload headers w).1.calls
  unfolding dispatch
  dispatch-calls a id payload headers w =
      dispatch_config-calls (parse_config net.unmarshal_twilio a) id payload w

  abbrev pub twilio_dispatcher : Dispatcher
  twilio_dispatcher = record {
    validate = λ _ a. returned (validate a);
    dispatch = dispatch;
    dispatch-db = dispatch-db;
    dispatch-calls = dispatch-calls;
  }
