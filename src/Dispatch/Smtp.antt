-- ===== src/Dispatch/Smtp.antt =====
-- internal/dispatch/smtp.go: a mail with the payload.
use Prim.Native.String.{◌++◌}
use nitrohook.Prelude.{
  ◌≤◌, zero, String, ◌≡◌, refl, Bool, true, false, Option, none, some, [], ◌∷◌, same, ◌≢◌, ◌↔◌,
  eq_iff, suc, arith, if◌then◌else◌,
}
use nitrohook.Model.{RawMessage, Action}
use nitrohook.Io.{Mail, mail, World, Io, ◌>>=◌, call, pure}
use nitrohook.Script.{returned}
use nitrohook.Dispatch.{Result, Dispatcher}
use nitrohook.Dispatch.Net.{
  Net, ℤ, pos, negsuc, Parsed, parsed, malformed, SmtpConfig, failure, parse_config,
}

abbrev pub is_zero : ℤ → Bool
is_zero (pos zero) = true
is_zero _ = false

unfoldable checked : Parsed SmtpConfig → Option String
checked (malformed e) = some e
checked (parsed cfg) =
    if same cfg.host ""
    then some "config.host is required for smtp actions"
    else if same cfg.from ""
    then some "config.from is required for smtp actions"
    else if same cfg.to ""
    then some "config.to is required for smtp actions"
    else if is_zero cfg.port
    then some "config.port is required for smtp actions"
    else none

abbrev pub or_text : Option String → String → String
or_text none text = text
or_text (some s) text = s

-- The fields that an SMTP action needs.
unfoldable pub HasFields : Parsed SmtpConfig → Type 0
HasFields (malformed e) = ⊥
HasFields (parsed cfg) = (cfg.host ≢ "") × (cfg.from ≢ "") × (cfg.to ≢ "") × (cfg.port ≢ pos zero)

is_zero_iff : (z : ℤ) → (is_zero z ≡ true) ↔ (z ≡ pos zero)
is_zero_iff (pos zero) = ground arith
is_zero_iff (pos (suc n)) = ground arith
is_zero_iff (negsuc n) = ground arith

checked_iff : (c : Parsed SmtpConfig) → (checked c ≡ none) ↔ HasFields c
unfolding checked HasFields
checked_iff (malformed e) = ground arith
checked_iff (parsed cfg) =
    ground (arith, eq_iff cfg.host "", eq_iff cfg.from "", eq_iff cfg.to "", is_zero_iff cfg.port)

module _ (net : Net) where
  unfoldable pub validate : Action → Option String
  unfolding checked
  validate action = checked (parse_config net.unmarshal_smtp action)

  -- An SMTP action is valid exactly when its configuration can be read, names a host, a sender and
  -- a recipient, and has a port that is not 0.
  pub validate_smtp_iff :
      (a : Action) → (validate a ≡ none) ↔ HasFields (parse_config net.unmarshal_smtp a)
  unfolding validate
  validate_smtp_iff a = checked_iff (parse_config net.unmarshal_smtp a)

  unfoldable pub message : SmtpConfig → String → RawMessage → Mail
  message cfg delivery_id payload = record {
    addr = net.join_host_port cfg.host (net.int_text cfg.port);
    auth = if same cfg.username "" then none else some (cfg.username, cfg.password, cfg.host);
    from = cfg.from;
    to = cfg.to ∷ [];
    text =
        "From: "
        ++ cfg.from
        ++ "\r\nTo: "
        ++ cfg.to
        ++ "\r\nSubject: "
        ++ (if same cfg.subject "" then "Webhook delivery " ++ delivery_id else cfg.subject)
        ++ "\r\nContent-Type: text/plain; charset=utf-8\r\n\r\nDelivery ID: "
        ++ delivery_id
        ++ "\n\n"
        ++ or_text (net.indent payload) payload;
  }

  -- SendMail: what is logged is the attempt to send.
  unfoldable pub send_mail : Mail → Io (Option String)
  unfolding call
  send_mail m w = (net.send_mail w.calls m, record (call w).1 { outbox = mail m ∷ w.outbox })

  unfoldable pub sent : SmtpConfig → Option String → Result
  sent cfg (some e) = failure e
  sent cfg none = record {
    success = true;
    response_status = none;
    response_body = some ("sent to " ++ cfg.to);
    error_message = none;
  }

  unfoldable pub dispatch_config : Parsed SmtpConfig → String → RawMessage → Io Result
  unfolding send_mail sent pure
  dispatch_config (malformed e) delivery_id payload = pure (failure e)
  dispatch_config (parsed cfg) delivery_id payload = do
    r ← send_mail (message cfg delivery_id payload)
    pure (sent cfg r)

  unfoldable pub dispatch : Action → String → RawMessage → RawMessage → Io Result
  unfolding dispatch_config
  dispatch action delivery_id payload headers =
      dispatch_config (parse_config net.unmarshal_smtp action) delivery_id payload

  dispatch_config-db :
      (c : Parsed SmtpConfig) (id : String) (payload : RawMessage) (w : World)
      → (dispatch_config c id payload w).1.db ≡ w.db
  unfolding dispatch_config
  dispatch_config-db (malformed e) id payload w = refl
  dispatch_config-db (parsed cfg) id payload w = refl

  pub dispatch-db :
      (a : Action) (id : String) (payload headers : RawMessage) (w : World)
      → (dispatch a id payload headers w).1.db ≡ w.db
  unfolding dispatch
  dispatch-db a id payload headers w =
      dispatch_config-db (parse_config net.unmarshal_smtp a) id payload w

  dispatch_config-calls :
      (c : Parsed SmtpConfig) (id : String) (payload : RawMessage) (w : World)
      → w.calls ≤ (dispatch_config c id payload w).1.calls
  unfolding dispatch_config pure
  dispatch_config-calls (malformed e) id payload w = omega arith
  dispatch_config-calls (parsed cfg) id payload w = omega arith

  pub dispatch-calls :
      (a : Action) (id : String) (payload headers : RawMessage) (w : World)
      → w.calls ≤ (dispatch a id payload headers w).1.calls
  unfolding dispatch
  dispatch-calls a id payload headers w =
      dispatch_config-calls (parse_config net.unmarshal_smtp a) id payload w

  abbrev pub smtp_dispatcher : Dispatcher
  smtp_dispatcher = record {
    validate = λ _ a. returned (validate a);
    dispatch = dispatch;
    dispatch-db = dispatch-db;
    dispatch-calls = dispatch-calls;
  }
