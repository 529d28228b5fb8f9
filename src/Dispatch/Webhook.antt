-- ===== src/Dispatch/Webhook.antt =====
-- internal/dispatch/webhook.go: a POST of the payload, with the delivery's headers and a signature.
use Prim.Native.String.{◌++◌}
use nitrohook.Prelude.{
  ◌≤◌, ℕ, String, ◌≡◌, ◌↔◌, sym, refl, true, eq_iff, Option, none, some, List, [], ◌∷◌, same,
  if◌then◌else◌,
}
use nitrohook.Model.{RawMessage, Action}
use nitrohook.Io.{HttpRequest, World, Io}
use nitrohook.Script.{returned}
use nitrohook.Signing.{sign, verify}
use nitrohook.Dispatch.{Result, Dispatcher}
use nitrohook.Dispatch.Net.{
  get_header, get_header-set_header, Net, set_header, post, post-db, post-calls,
}

abbrev pub text_or_empty : Option String → String
text_or_empty none = ""
text_or_empty (some s) = s

unfoldable pub validate : Action → Option String
validate action =
    if same (text_or_empty action.target_url) ""
    then some "target_url is required for webhook actions"
    else none

abbrev pub describe : Net → ℕ → String → String
describe net status body = "HTTP " ++ net.decimal status

module _ (net : Net) where
  -- The headers of the delivery, but for Content-Type as it is spelled here.
  unfoldable pub copy_headers :
      List (String × String) → List (String × String) → List (String × String)
  copy_headers [] headers = headers
  copy_headers ((k, v) ∷ rest) headers =
      copy_headers rest
        (if same k "Content-Type" then headers else set_header (net.canonical k) v headers)

  unfoldable pub delivery_headers :
      Option (List (String × String)) → List (String × String) → List (String × String)
  unfolding copy_headers
  delivery_headers none headers = headers
  delivery_headers (some header_map) headers = copy_headers header_map headers

  unfoldable pub signature_header :
      Option String → RawMessage → List (String × String) → List (String × String)
  signature_header none payload headers = headers
  signature_header (some secret) payload headers =
      set_header (net.canonical "X-Webhook-Signature-256") (sign net.hex_hmac payload secret)
        headers

  unfoldable pub request : Action → String → RawMessage → RawMessage → HttpRequest
  unfolding delivery_headers signature_header
  request action delivery_id payload headers = record {
    url = text_or_empty action.target_url;
    headers = signature_header action.signing_secret payload (
        delivery_headers (net.unmarshal_headers headers) (
          set_header (net.canonical "X-Delivery-ID") delivery_id
            (set_header (net.canonical "Content-Type") "application/json" [])));
    body = payload;
  }

  unfoldable pub dispatch : Action → String → RawMessage → RawMessage → Io Result
  dispatch action delivery_id payload headers =
      post net (describe net) (request action delivery_id payload headers)

  -- The request of a webhook action with a secret has the payload as its body, and whatever headers
  -- the delivery brings, its header X-Webhook-Signature-256 is "sha256=" and the hexadecimal HMAC of
  -- this body under the secret, which is the one signature that Verify accepts for them.
  pub request-signed :
      (action : Action) (secret delivery_id signature : String) (payload headers : RawMessage)
      → action.signing_secret ≡ some secret
      → let r = request action delivery_id payload headers in
        (r.body ≡ payload)
        × (get_header (net.canonical "X-Webhook-Signature-256") r.headers
            ≡ some ("sha256=" ++ net.hex_hmac secret payload))
        × ((verify net.hex_hmac r.body secret signature ≡ true)
            ↔ (signature ≡ "sha256=" ++ net.hex_hmac secret payload))
  unfolding request signature_header sign verify
  request-signed action secret delivery_id signature payload headers e =
      let (to, from) = eq_iff ("sha256=" ++ net.hex_hmac secret payload) signature in
      (refl, rw e (get_header-set_header _ _ _), ((λ h. sym (to h)), (λ q. from (sym q))))

  pub dispatch-db :
      (a : Action) (id : String) (payload headers : RawMessage) (w : World)
      → (dispatch a id payload headers w).1.db ≡ w.db
  unfolding dispatch
  dispatch-db a id payload headers w = post-db net (describe net) (request a id payload headers) w

  pub dispatch-calls :
      (a : Action) (id : String) (payload headers : RawMessage) (w : World)
      → w.calls ≤ (dispatch a id payload headers w).1.calls
  unfolding dispatch
  dispatch-calls a id payload headers w =
      post-calls net (describe net) (request a id payload headers) w

  abbrev pub webhook_dispatcher : Dispatcher
  webhook_dispatcher = record {
    validate = λ _ a. returned (validate a);
    dispatch = dispatch;
    dispatch-db = dispatch-db;
    dispatch-calls = dispatch-calls;
  }
