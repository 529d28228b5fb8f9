-- ===== src/Script.antt =====
-- internal/script/runner.go: the transform and process scripts, over the JavaScript engine goja
-- and encoding/json, whose values and functions are the fields of `Vm`.
use Prim.Native.String.{len}
use nitrohook.Prelude.{ℕ, ◌*◌, String, Option, none, some, List, [], ◌∷◌, ltb, if◌then◌else◌}
use nitrohook.Model.{Uuid}

-- How a call into the engine ends. The engine reports an interrupt as an error or as a panic.
pub data Ended (A : Type 0) : Type 0 where
  returned : A → Ended A
  raised : String → Ended A
  interrupted : String → Ended A
  panicked : String → Ended A
  panicked_interrupted : Ended A

abbrev pub Headers : Type 0
Headers = List (String × String)

-- The argument of a script: `actions` is there for the transform of a source alone.
pub record Event (Object : Type 0) : Type 0 where
  pub payload : Object
  pub headers : Headers
  pub actions : Option (List (String × String))

-- What is read back from the JSON of a script's result. Headers may hold any value.
pub record RawResult (Object Any : Type 0) : Type 0 where
  pub payload : Object
  pub headers : List (String × Any)
  pub actions : List (String × String)

pub data ScriptError : Type 0 where
  script_too_large script_timeout no_transform no_process no_action_transform : ScriptError
  compilation execution panic : String → ScriptError
  marshal unmarshal : ScriptError

-- goja and encoding/json. `Object` is map[string]any. `get` and `invoke` give no value for nil,
-- undefined and null. The number is that of the run: a script may read the clock and draw numbers.
-- The three `error` fields are the texts of errors.
pub record Vm : Type 1 where
  pub Object : Type 0
  pub Any : Type 0
  pub Machine : Type 0
  pub Value : Type 0
  pub Function : Type 0
  pub run_string : ℕ → String → Ended Machine
  pub get : Machine → String → Option Value
  pub assert_function : Value → Option Function
  pub invoke : Machine → Function → Event Object → Ended (Option Value)
  pub marshal_value : Value → Option String
  pub unmarshal_result : String → Option (RawResult Object Any)
  pub sprint : Any → String
  pub unmarshal_object : String → Option Object
  pub unmarshal_headers : String → Option Headers
  pub marshal_object : Object → Option String
  pub marshal_headers : Headers → Option String
  pub object_error : String → String
  pub headers_error : String → String
  pub error_text : ScriptError → String
  pub uuid_string : Uuid → String
  pub uuid_parse : String → Option Uuid

pub data Try (A : Type 0) : Type 0 where
  ok : A → Try A
  err : ScriptError → Try A

abbrev pub max_script_size : ℕ
max_script_size = 64 * 1024

pub record ActionRef : Type 0 where
  pub id : Uuid
  pub target_url : String

module _ (vm : Vm) where
  open vm use {
    Object, Any, Machine, Value, Function, run_string, get, assert_function, invoke, marshal_value,
    unmarshal_result, sprint, uuid_string, uuid_parse,
  }

  pub record TransformInput : Type 0 where
    pub payload : Object
    pub headers : Headers
    pub actions : List ActionRef

  -- `dropped` is the result { Dropped: true }, whose other fields are nil.
  pub data TransformResult : Type 0 where
    dropped : TransformResult
    transformed : Object → Headers → List ActionRef → TransformResult

  pub data ActionTransformResult : Type 0 where
    skipped : ActionTransformResult
    reshaped : Object → Headers → ActionTransformResult

  -- The named function, if the script defines one.
  unfoldable pub callable : Machine → String → Option Function
  callable machine name = elim (get machine name) [ none ↦ none | some f ↦ assert_function f ]

  unfoldable pub call_outcome : Ended (Option Value) → Try (Option Value)
  call_outcome (returned v) = ok v
  call_outcome (raised text) = err (execution text)
  call_outcome (interrupted text) = err script_timeout
  call_outcome (panicked text) = err (panic text)
  call_outcome panicked_interrupted = err script_timeout

  unfoldable pub call_function :
      Machine → Option Function → ScriptError → Event Object → Try (Option Value)
  unfolding call_outcome
  call_function machine none missing event = err missing
  call_function machine (some f) missing event = call_outcome (invoke machine f event)

  unfoldable pub after_run :
      Ended Machine → String → ScriptError → Event Object → Try (Option Value)
  unfolding callable call_function
  after_run (returned machine) name missing event =
      call_function machine (callable machine name) missing event
  after_run (raised text) name missing event = err (compilation text)
  after_run (interrupted text) name missing event = err (compilation text)
  after_run (panicked text) name missing event = err (panic text)
  after_run panicked_interrupted name missing event = err script_timeout

  unfoldable pub run_vm : ℕ → String → String → ScriptError → Event Object → Try (Option Value)
  unfolding after_run
  run_vm n body name missing event =
      if ltb max_script_size (len body)
      then err script_too_large
      else after_run (run_string n body) name missing event

  abbrev sprint_headers : List (String × Any) → Headers
  sprint_headers [] = []
  sprint_headers ((k, v) ∷ rest) = (k, sprint v) ∷ sprint_headers rest

  -- Entries whose id is no UUID are left out.
  unfoldable pub parse_refs : List (String × String) → List ActionRef
  parse_refs [] = []
  parse_refs ((id, url) ∷ rest) =
      let refs = parse_refs rest in
      elim (uuid_parse id) [ none ↦ refs | some u ↦ record { id = u; target_url = url } ∷ refs ]

  abbrev pub refs_for_js : List ActionRef → List (String × String)
  refs_for_js [] = []
  refs_for_js (a ∷ rest) = (uuid_string a.id, a.target_url) ∷ refs_for_js rest

  -- json.Marshal(ret.Export()), read back as the fields of a result.
  unfoldable pub read_back : Value → Try (RawResult Object Any)
  read_back v = elim (marshal_value v) [
    | none ↦ err marshal
    | some text ↦ elim (unmarshal_result text) [ none ↦ err unmarshal | some raw ↦ ok raw ]
  ]

  unfoldable pub transform_of : Try (RawResult Object Any) → Try TransformResult
  unfolding parse_refs
  transform_of (err e) = err e
  transform_of (ok raw) =
      ok (transformed raw.payload (sprint_headers raw.headers) (parse_refs raw.actions))

  unfoldable pub transform_result : Try (Option Value) → Try TransformResult
  unfolding read_back transform_of
  transform_result (err e) = err e
  transform_result (ok none) = ok dropped
  transform_result (ok (some v)) = transform_of (read_back v)

  unfoldable pub run : ℕ → String → TransformInput → Try TransformResult
  unfolding run_vm transform_result
  run n body input = transform_result (
      run_vm n body "transform" no_transform (record {
        payload = input.payload;
        headers = input.headers;
        actions = some (refs_for_js input.actions);
      }))

  json_result : Try (Option Value) → Try String
  json_result (err e) = err e
  json_result (ok none) = ok "null"
  json_result (ok (some v)) = elim (marshal_value v) [ none ↦ err marshal | some text ↦ ok text ]

  unfoldable pub run_action : ℕ → String → Object → Headers → Try String
  unfolding run_vm json_result
  run_action n body payload headers = json_result (
      run_vm n body "process" no_process
        (record { payload = payload; headers = headers; actions = none }))

  reshape_of : Try (RawResult Object Any) → Try ActionTransformResult
  reshape_of (err e) = err e
  reshape_of (ok raw) = ok (reshaped raw.payload (sprint_headers raw.headers))

  reshape_result : Try (Option Value) → Try ActionTransformResult
  unfolding read_back reshape_of
  reshape_result (err e) = err e
  reshape_result (ok none) = ok skipped
  reshape_result (ok (some v)) = reshape_of (read_back v)

  unfoldable pub run_action_transform : ℕ → String → Object → Headers → Try ActionTransformResult
  unfolding run_vm reshape_result
  run_action_transform n body payload headers = reshape_result (
      run_vm n body "transform" no_action_transform
        (record { payload = payload; headers = headers; actions = none }))

  -- The checks without a call of the function: no timer runs and no panic is caught here.
  after_validate : Ended Machine → String → ScriptError → Ended (Option ScriptError)
  unfolding callable
  after_validate (returned machine) name missing = elim (callable machine name) [
    | none ↦ returned (some missing)
    | some f ↦ returned none
  ]
  after_validate (raised text) name missing = returned (some (compilation text))
  after_validate (interrupted text) name missing = returned (some (compilation text))
  after_validate (panicked text) name missing = panicked text
  after_validate panicked_interrupted name missing = panicked_interrupted

  unfoldable pub validate_script : ℕ → String → String → ScriptError → Ended (Option ScriptError)
  unfolding after_validate
  validate_script n body name missing =
      if ltb max_script_size (len body)
      then returned (some script_too_large)
      else after_validate (run_string n body) name missing

  unfoldable pub validate : ℕ → String → Ended (Option ScriptError)
  unfolding validate_script
  validate n body = validate_script n body "transform" no_transform

  unfoldable pub validate_action : ℕ → String → Ended (Option ScriptError)
  unfolding validate_script
  validate_action n body = validate_script n body "process" no_process

  unfoldable pub validate_action_transform : ℕ → String → Ended (Option ScriptError)
  unfolding validate_script
  validate_action_transform n body = validate_script n body "transform" no_action_transform
