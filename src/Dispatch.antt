-- ===== src/Dispatch.antt =====
-- internal/dispatch/dispatch.go: the interface of a dispatcher, and the registry.
pub mod Net
pub mod Webhook
pub mod Slack
pub mod Smtp
pub mod Twilio
pub mod Javascript
use Prim.Native.String.{◌++◌}
use nitrohook.Prelude.{
  ℕ, String, ◌≡◌, Bool, Option, none, some, List, [], ◌∷◌, same, refl, Bool-cases, inl, inr, eq_iff,
  arith, if◌then◌else◌, ◌≤◌,
}
use nitrohook.Model.{ActionType, RawMessage, Action}
use nitrohook.Io.{World, Io}
use nitrohook.Script.{Ended}

-- dispatch.Result
pub record Result : Type 0 where
  pub success : Bool
  pub response_status : Option ℕ
  pub response_body : Option String
  pub error_message : Option String

-- A dispatcher sends, does not touch the tables, and takes no call back: `dispatch-db` and
-- `dispatch-calls` are its laws. `validate` may run a script, as the call of the given number; its
-- result is an error text.
pub record Dispatcher : Type 0 where
  pub validate : ℕ → Action → Ended (Option String)
  pub dispatch : Action → String → RawMessage → RawMessage → Io Result
  pub dispatch-db :
      (a : Action) (id : String) (payload headers : RawMessage) (w : World)
      → (dispatch a id payload headers w).1.db ≡ w.db
  pub dispatch-calls :
      (a : Action) (id : String) (payload headers : RawMessage) (w : World)
      → w.calls ≤ (dispatch a id payload headers w).1.calls

-- The map from action types to dispatchers.
abbrev pub Registry : Type 0
Registry = List (ActionType × Dispatcher)

unfoldable pub register : ActionType → Dispatcher → Registry → Registry
register type d [] = (type, d) ∷ []
register type d ((t, e) ∷ rest) =
    if same t type then (type, d) ∷ rest else (t, e) ∷ register type d rest

unfoldable pub get : Registry → ActionType → Option Dispatcher
get [] type = none
get ((t, d) ∷ rest) type = if same t type then some d else get rest type

-- Types, in no order of its own.
unfoldable pub types : Registry → List ActionType
types [] = []
types ((t, d) ∷ rest) = t ∷ types rest

-- What is registered for a type is found for it, and the other types keep what they had.
pub get-register :
    (type : ActionType) (d : Dispatcher) (registry : Registry) (other : ActionType)
    → get (register type d registry) other
      ≡ (if same type other then some d else get registry other)
unfolding get register
get-register type d [] other = refl
get-register type d ((t, e) ∷ rest) other =
    ground (arith, eq_iff t type, eq_iff t other, eq_iff type other, get-register type d rest other)

-- fmt.Errorf("no dispatcher registered for action type %q", actionType), for a type that %q
-- leaves as it is between its quotes.
unfoldable pub get_error : ActionType → String
get_error type = "no dispatcher registered for action type \"" ++ type ++ "\""
