-- ===== src/Io.antt =====
-- What a request or a worker acts on: the PostgreSQL tables, the Redis stream, and the messages
-- that leave the process. The code reaches them by calls that may fail.
pub mod Keeps
pub mod Outcomes
pub mod Reliable
pub mod Triple
use nitrohook.Prelude.{ℕ, suc, String, Bool, Option, none, some, List, [], ◌∷◌, ◌++◌}
use nitrohook.Model.{Uuid, Time, RawMessage, Source, Action, Delivery, DeliveryAttempt}

-- The tables of migrations/*.up.sql. The order of a list stands for no order of the rows.
pub record Db : Type 0 where
  pub sources : List Source
  pub actions : List Action
  pub deliveries : List Delivery
  pub attempts : List DeliveryAttempt

-- The values of an entry of the Redis stream "deliveries".
pub record Message : Type 0 where
  pub delivery_id : Option String
  pub force : Option String

pub record HttpRequest : Type 0 where
  pub url : String
  pub headers : List (String × String)
  pub body : String

pub record Mail : Type 0 where
  pub addr : String
  pub auth : Option (String × String × String)
  pub from : String
  pub to : List String
  pub text : String

-- What a dispatcher hands to the network.
pub data Outgoing : Type 0 where
  http : HttpRequest → Outgoing
  mail : Mail → Outgoing

-- `published` holds the entries of all successful XADD calls, `outbox` all that was sent, both
-- newest first; `calls` counts the calls out of the process.
pub record World : Type 0 where
  pub db : Db
  pub published : List Message
  pub outbox : List Outgoing
  pub calls : ℕ

-- An `error` of the store: what pgx reports, or the code's own "source not found".
pub data Error : Type 0 where
  no_rows unique_violation foreign_key_violation check_violation invalid_json : Error
  source_not_found : Error
  unavailable : String → Error

pub data Result (A : Type 0) : Type 0 where
  ok : A → Result A
  err : Error → Result A

-- The parts of the host that are not code of the repository, by the number of the call: the error
-- text if the call fails (a call that fails has no effect), the UUID that it draws, and the time.
-- `jsonb` is the text that a JSONB column gives back for a text, if it takes it.
pub record Host : Type 0 where
  pub fault : ℕ → Option String
  pub gen_uuid : ℕ → Uuid
  pub now : ℕ → Time
  pub jsonb : String → Option String
  pub uuid_string : Uuid → String
  pub uuid_parse : String → Option Uuid

abbrev pub Io : Type 0 → Type 0
Io A = World → A × World

infixl 5 ◌>>=◌ ◌>>◌
abbrev pub ◌>>=◌ : {A B : Type 0} → Io A → (A → Io B) → Io B
◌>>=◌ m f w = let (a, w') = m w in f a w'

abbrev pub ◌>>◌ : {A B : Type 0} → Io A → Io B → Io B
m >> k = m >>= λ _. k

unfoldable pub pure : {A : Type 0} → A → Io A
pure a w = (a, w)

-- One call out of the process: its number.
unfoldable pub call : Io ℕ
call w = (w.calls, record w { calls = suc w.calls })

-- The outcome of a statement, put back into the world.
unfoldable pub settle : {A : Type 0} → Result (A × Db) → Io (Result A)
settle (ok (a, db)) w = (ok a, record w { db = db })
settle (err e) w = (err e, w)

unfoldable pub unless_fault : {A : Type 0} → Option String → Io (Result A) → Io (Result A)
unless_fault (some text) m w = (err (unavailable text), w)
unless_fault none m w = m w

-- A statement that reads.
unfoldable pub query : {A : Type 0} → Host → (ℕ → Db → Result A) → Io (Result A)
unfolding call unless_fault
query host read = do n ← call; unless_fault (host.fault n) (λ w. (read n w.db, w))

-- A statement that writes.
unfoldable pub exec : {A : Type 0} → Host → (ℕ → Db → Result (A × Db)) → Io (Result A)
unfolding call unless_fault settle
exec host write = do n ← call; unless_fault (host.fault n) (λ w. settle (write n w.db) w)

-- XADD.
unfoldable pub xadd : Host → Message → Io (Result (Unit {0}))
unfolding call unless_fault
xadd host m = do
  n ← call
  unless_fault (host.fault n) (λ w. (ok tt, record w { published = m ∷ w.published }))

-- A text that goes into a JSONB column.
abbrev pub stored : {B : Type 0} → Option RawMessage → (RawMessage → Result B) → Result B
stored none k = err invalid_json
stored (some text) k = k text

-- The row that a SELECT or a RETURNING hands to Scan.
abbrev pub scan : {A : Type 0} → Option A → Result A
scan none = err no_rows
scan (some row) = ok row
