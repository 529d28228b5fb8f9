-- ===== src/Dispatch/Javascript.antt =====
-- internal/dispatch/javascript.go: the script of the action, run on payload and headers.
use Prim.Native.String.{◌++◌}
use nitrohook.Prelude.{◌≤◌, ℕ, String, ◌≡◌, true, Option, none, some, arith, same, if◌then◌else◌}
use nitrohook.Model.{RawMessage, Action}
use nitrohook.Io.{World, Io, ◌>>=◌, call, pure}
use nitrohook.Script.{
  Vm, ScriptError, Ended, returned, raised, interrupted, panicked, panicked_interrupted, Try, ok,
  err, run_action, validate_action,
}
use nitrohook.Dispatch.{Result, Dispatcher}
use nitrohook.Dispatch.Net.{failure}

-- The script body, if it is set and not empty.
abbrev pub body_of : Action → Option String
body_of a = elim a.script_body [ none ↦ none | some s ↦ if same s "" then none else some s ]

module _ (vm : Vm) where
  open vm use {unmarshal_object, unmarshal_headers, object_error, headers_error, error_text}

  error_of : Ended (Option ScriptError) → Ended (Option String)
  error_of (returned none) = returned none
  error_of (returned (some e)) = returned (some (error_text e))
  error_of (raised t) = raised t
  error_of (interrupted t) = interrupted t
  error_of (panicked t) = panicked t
  error_of panicked_interrupted = panicked_interrupted

  unfoldable pub validate : ℕ → Action → Ended (Option String)
  unfolding error_of
  validate n action = elim (body_of action) [
    | none ↦ returned (some "script_body is required for javascript actions")
    | some body ↦ error_of (validate_action vm n body)
  ]

  unfoldable pub result_of : Try String → Result
  result_of (err e) = failure (error_text e)
  result_of (ok text) = record {
    success = true;
    response_status = none;
    response_body = some text;
    error_message = none;
  }

  unfoldable pub run_script : ℕ → String → RawMessage → RawMessage → Result
  unfolding result_of
  run_script n body payload headers = elim (unmarshal_object payload) [
    | none ↦ failure ("failed to unmarshal payload: " ++ object_error payload)
    | some object ↦ elim (unmarshal_headers headers) [
      | none ↦ failure ("failed to unmarshal headers: " ++ headers_error headers)
      | some header_map ↦ result_of (run_action vm n body object header_map)
    ]
  ]

  unfoldable pub dispatch : Action → String → RawMessage → RawMessage → Io Result
  unfolding run_script
  dispatch action delivery_id payload headers = elim (body_of action) [
    | none ↦ pure (failure "javascript action has no script_body")
    | some body ↦ do n ← call; pure (run_script n body payload headers)
  ]

  pub dispatch-db :
      (a : Action) (id : String) (payload headers : RawMessage) (w : World)
      → (dispatch a id payload headers w).1.db ≡ w.db
  unfolding dispatch call pure
  dispatch-db a id payload headers w = ground arith

  pub dispatch-calls :
      (a : Action) (id : String) (payload headers : RawMessage) (w : World)
      → w.calls ≤ (dispatch a id payload headers w).1.calls
  unfolding dispatch call pure
  dispatch-calls a id payload headers w = ground arith

  abbrev pub javascript_dispatcher : Dispatcher
  javascript_dispatcher = record {
    validate = validate;
    dispatch = dispatch;
    dispatch-db = dispatch-db;
    dispatch-calls = dispatch-calls;
  }
