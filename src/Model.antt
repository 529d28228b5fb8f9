-- ===== src/Model.antt =====
-- internal/model/model.go: the rows of the database, with the enumerations of their columns.
use nitrohook.Prelude.{ℕ, String, Bool, Option}

-- A UUID is its 128-bit value; the program only compares them.
abbrev pub Uuid : Type 0
Uuid = ℕ

-- Nanoseconds since the epoch.
abbrev pub Time : Type 0
Time = ℕ

-- json.RawMessage: the text of a JSON value.
abbrev pub RawMessage : Type 0
RawMessage = String

pub record Source : Type 0 where
  pub id : Uuid
  pub name : String
  pub slug : String
  pub mode : String
  pub script_body : Option String
  pub created_at : Time
  pub updated_at : Time

abbrev pub ActionType : Type 0
ActionType = String

abbrev pub action_type_webhook : ActionType
action_type_webhook = "webhook"

abbrev pub action_type_javascript : ActionType
action_type_javascript = "javascript"

abbrev pub action_type_slack : ActionType
action_type_slack = "slack"

abbrev pub action_type_smtp : ActionType
action_type_smtp = "smtp"

abbrev pub action_type_twilio : ActionType
action_type_twilio = "twilio"

pub record Action : Type 0 where
  pub id : Uuid
  pub source_id : Uuid
  pub type : ActionType
  pub target_url : Option String
  pub script_body : Option String
  pub signing_secret : Option String
  pub config : Option RawMessage
  pub transform_script : Option String
  pub is_active : Bool
  pub created_at : Time
  pub updated_at : Time

pub data DeliveryStatus : Type 0 where
  pending processing completed failed recorded : DeliveryStatus

pub record Delivery : Type 0 where
  pub id : Uuid
  pub source_id : Uuid
  pub idempotency_key : String
  pub headers : RawMessage
  pub payload : RawMessage
  pub status : DeliveryStatus
  pub received_at : Time
  pub transformed_payload : Option RawMessage
  pub transformed_headers : Option RawMessage

pub data AttemptStatus : Type 0 where
  pending success failed : AttemptStatus

pub record DeliveryAttempt : Type 0 where
  pub id : Uuid
  pub delivery_id : Uuid
  pub action_id : Uuid
  pub attempt_number : ℕ
  pub status : AttemptStatus
  pub response_status : Option ℕ
  pub response_body : Option String
  pub error_message : Option String
  pub next_retry_at : Option Time
  pub created_at : Time
