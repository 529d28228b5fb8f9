-- ===== src/Dispatch/Net.antt =====
-- What the dispatchers call outside the repository, and the parts that they share.
use Prim.Native.String.{◌++◌}
use nitrohook.Prelude.{
  ℕ, String, ◌≡◌, refl, arith, ◌↔◌, ◌≤◌, ◌<◌, Bool, true, false, ◌&&◌, Option, none, some, List, [],
  ◌∷◌, ltb, leb, same, if◌then◌else◌, eq_refl, Bool-cases, inl, inr,
}
use nitrohook.Model.{Action}
use nitrohook.Io.{HttpRequest, Mail, http, World, Io, call}
use nitrohook.Dispatch.{Result}

-- An int.
pub data ℤ : Type 0 where
  pos negsuc : ℕ → ℤ

-- A value that was read, or the text of the error.
pub data Parsed (A : Type 0) : Type 0 where
  parsed : A → Parsed A
  malformed : String → Parsed A

-- The answer to an HTTP request: an error, or a status with what can be read of its body up to a
-- number of bytes.
pub data Answer : Type 0 where
  no_answer : String → Answer
  answered : ℕ → (ℕ → String) → Answer

pub record SlackConfig : Type 0 where
  pub webhook_url : String
  pub channel : String
  pub username : String

pub record SmtpConfig : Type 0 where
  pub host : String
  pub port : ℤ
  pub username : String
  pub password : String
  pub from : String
  pub to : String
  pub subject : String

pub record TwilioConfig : Type 0 where
  pub account_sid : String
  pub auth_token : String
  pub from : String
  pub to : String
  pub body_tmpl : String

-- net/http, net/smtp, net/url, encoding/json and strconv. `request_error` is the error of
-- NewRequest for a URL, `canonical` the canonical form of a header's name, `utf8` the bytes of a
-- text, `respond` and `send_mail` the answers of the network at the call of the given number.
pub record Net : Type 0 where
  pub request_error : String → Option String
  pub canonical : String → String
  pub respond : ℕ → HttpRequest → Answer
  pub send_mail : ℕ → Mail → Option String
  pub unmarshal_headers : String → Option (List (String × String))
  pub marshal_texts : List (String × String) → String
  pub indent : String → Option String
  pub unmarshal_slack : String → Parsed SlackConfig
  pub unmarshal_smtp : String → Parsed SmtpConfig
  pub unmarshal_twilio : String → Parsed TwilioConfig
  pub utf8 : String → List ℕ
  pub form_encode : List (String × List ℕ) → String
  pub basic_auth : String → String → String
  pub join_host_port : String → String → String
  pub decimal : ℕ → String
  pub int_text : ℤ → String
  pub hex_hmac : String → String → String

abbrev pub max_body_len : ℕ
max_body_len = 4096

-- Result{ErrorMessage: &errMsg}
abbrev pub failure : String → Result
failure text = record {
  success = false;
  response_status = none;
  response_body = none;
  error_message = some text;
}

abbrev pub is_success : ℕ → Bool
is_success status = leb 200 status && ltb status 300

-- The result of a request, by the text for a status that is no success.
unfoldable pub result_of : (ℕ → String → String) → Answer → Result
result_of describe (no_answer text) = failure text
result_of describe (answered status read) = record {
  success = is_success status;
  response_status = some status;
  response_body = some (read max_body_len);
  error_message = if is_success status then none else some (describe status (read max_body_len));
}

-- An answer with a status from 200 to 299.
unfoldable pub IsAccepted : Answer → Type 0
IsAccepted (no_answer text) = ⊥
IsAccepted (answered status read) = (200 ≤ status) × (status < 300)

result_of-success :
    (describe : ℕ → String → String) (a : Answer)
    → ((result_of describe a).success ≡ true) ↔ IsAccepted a
unfolding result_of IsAccepted
result_of-success describe (no_answer text) = ground arith
result_of-success describe (answered status read) = ground arith

-- Header.Set
unfoldable pub set_header : String → String → List (String × String) → List (String × String)
set_header name value [] = (name, value) ∷ []
set_header name value ((k, v) ∷ rest) =
    if same k name then (name, value) ∷ rest else (k, v) ∷ set_header name value rest

-- Header.Get
unfoldable pub get_header : String → List (String × String) → Option String
get_header name [] = none
get_header name ((k, v) ∷ rest) = if same k name then some v else get_header name rest

-- What is set is what is read.
pub get_header-set_header :
    (name value : String) (headers : List (String × String))
    → get_header name (set_header name value headers) ≡ some value
unfolding get_header set_header
get_header-set_header name value [] = rw (eq_refl name) refl
get_header-set_header name value ((k, v) ∷ rest) = elim (Bool-cases (same k name)) [
  | inl e ↦ rw e (rw (eq_refl name) refl)
  | inr e ↦ rw e (rw e (get_header-set_header name value rest))
]

-- parseConfig
unfoldable pub parse_config : {A : Type 0} → (String → Parsed A) → Action → Parsed A
parse_config unmarshal action = elim action.config [
  | none ↦ malformed "config is required"
  | some text ↦ elim (unmarshal text) [
    | malformed e ↦ malformed ("invalid config: " ++ e)
    | parsed cfg ↦ parsed cfg
  ]
]

module _ (net : Net) where
  -- Client.Do
  unfoldable pub send : HttpRequest → Io Answer
  unfolding call
  send r w = (net.respond w.calls r, record (call w).1 { outbox = http r ∷ w.outbox })

  unfoldable pub post_unless : Option String → (ℕ → String → String) → HttpRequest → Io Result
  unfolding send result_of
  post_unless (some text) describe r w = (failure text, w)
  post_unless none describe r w = let (a, w') = send r w in (result_of describe a, w')

  -- NewRequest and Client.Do, and the result.
  unfoldable pub post : (ℕ → String → String) → HttpRequest → Io Result
  unfolding post_unless
  post describe r w = post_unless (net.request_error r.url) describe r w

  -- A request leaves the tables alone.
  pub post-db :
      (describe : ℕ → String → String) (r : HttpRequest) (w : World)
      → (post describe r w).1.db ≡ w.db
  unfolding post post_unless send call
  post-db describe r w = ground arith

  -- And the number of calls does not fall.
  pub post-calls :
      (describe : ℕ → String → String) (r : HttpRequest) (w : World)
      → w.calls ≤ (post describe r w).1.calls
  unfolding post post_unless send call
  post-calls describe r w = ground arith

  post_unless-success :
      (o : Option String) (describe : ℕ → String → String) (r : HttpRequest) (w : World)
      → ((post_unless o describe r w).0.success ≡ true)
        ↔ ((o ≡ none) × IsAccepted (net.respond w.calls r))
  unfolding post_unless send
  post_unless-success none describe r w =
      let (to, from) = result_of-success describe (net.respond w.calls r) in
      (λ h. (refl, to h), λ h. from h.1)
  post_unless-success (some text) describe r w = (λ h. ground arith, λ h. ground arith)

  -- A request is a success exactly when it can be made, it is answered, and the status lies from
  -- 200 to 299.
  pub post-success :
      (describe : ℕ → String → String) (r : HttpRequest) (w : World)
      → ((post describe r w).0.success ≡ true)
        ↔ ((net.request_error r.url ≡ none) × IsAccepted (net.respond w.calls r))
  unfolding post
  post-success describe r w = post_unless-success (net.request_error r.url) describe r w
