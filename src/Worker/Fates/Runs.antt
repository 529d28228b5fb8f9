-- ===== src/Worker/Fates/Runs.antt =====
-- runTransform on the calls of the engine: when the script of a source drops a delivery or fails.
use Prim.Native.String.{len}
use nitrohook.Prelude.{
  ℕ, ◌<◌, ◌≤◌, ◌≡◌, refl, ◌∙◌, ◌⊎◌, inl, inr, String, false, Option, none, some, List, [], ◌∷◌, map,
  arith, ltb, Option-cases,
}
use nitrohook.Model.{Action, Delivery}
use nitrohook.Script.{
  script_too_large, unmarshal, marshal, Vm, Headers, Event, Ended, returned, raised, interrupted,
  panicked, panicked_interrupted, max_script_size, ScriptError, Try, TransformResult, dropped, run,
  run_vm, refs_for_js, call_outcome, transform_result, after_run, no_transform,
}
use nitrohook.Worker.Process.{run_transform, refs_of}

abbrev pub url_of : Option String → String
url_of none = ""
url_of (some url) = url

-- The actions as a script gets them, as pairs of id and URL.
abbrev pub listed : (vm : Vm) → List Action → List (String × String)
listed vm actions = map (λ a. (vm.uuid_string a.id, url_of a.target_url)) actions

refs-listed :
    (vm : Vm) (actions : List Action) → refs_for_js vm (refs_of actions) ≡ listed vm actions
refs-listed vm [] = refl
refs-listed vm (a ∷ rest) = elim (Option-cases a.target_url) [
  | inl e ↦ rw (e, refs-listed vm rest) refl
  | inr (u, e) ↦ rw (e, refs-listed vm rest) refl
]

-- A call into the engine that does not return.
abbrev pub IsStopped : {A : Type 0} → Ended A → Type 0
IsStopped (returned a) = ⊥
IsStopped (raised text) = Unit
IsStopped (interrupted text) = Unit
IsStopped (panicked text) = Unit
IsStopped panicked_interrupted = Unit

-- The n-th call of the process runs the script of a source.
module _ (vm : Vm) (n : ℕ) (body : String) (d : Delivery) (actions : List Action) where
  -- The payload and the headers of the delivery can be read.
  pub record IsReadable (o : vm.Object) (h : Headers) : Type 0 where
    pub payload : vm.unmarshal_object d.payload ≡ some o
    pub headers : vm.unmarshal_headers d.headers ≡ some h

  -- The script is not too large, compiles, and defines a function `transform`.
  pub record IsLoaded (m : vm.Machine) (f : vm.Function) : Type 0 where
    pub small : len body ≤ 65536
    pub compiled : vm.run_string n body ≡ returned m
    pub value : vm.Value
    pub defined : vm.get m "transform" ≡ some value
    pub callable : vm.assert_function value ≡ some f

  -- What the function gives.
  abbrev pub invoked : vm.Object → Headers → vm.Machine → vm.Function → Ended (Option vm.Value)
  invoked o h m f =
      vm.invoke m f (record { payload = o; headers = h; actions = some (listed vm actions) })

  -- The function gives null or undefined.
  pub record Drops : Type 0 where
    pub object : vm.Object
    pub header_map : Headers
    pub machine : vm.Machine
    pub function : vm.Function
    pub readable : IsReadable object header_map
    pub loaded : IsLoaded machine function
    pub null : invoked object header_map machine function ≡ returned none

  -- One of the ways in which the script fails.
  pub data Fails : Type 0 where
    no_payload : vm.unmarshal_object d.payload ≡ none → Fails
    no_headers :
        (o : vm.Object)
        → vm.unmarshal_object d.payload ≡ some o
        → vm.unmarshal_headers d.headers ≡ none
        → Fails
    too_large : (o : vm.Object) (h : Headers) → IsReadable o h → 65536 < len body → Fails
    not_compiled :
        (o : vm.Object) (h : Headers)
        → IsReadable o h
        → len body ≤ 65536
        → IsStopped (vm.run_string n body)
        → Fails
    no_function :
        (o : vm.Object) (h : Headers) (m : vm.Machine)
        → IsReadable o h
        → len body ≤ 65536
        → vm.run_string n body ≡ returned m
        → (vm.get m "transform" ≡ none)
          ⊎ ((v : vm.Value) × (vm.get m "transform" ≡ some v) × (vm.assert_function v ≡ none))
        → Fails
    stopped :
        (o : vm.Object) (h : Headers) (m : vm.Machine) (f : vm.Function)
        → IsReadable o h
        → IsLoaded m f
        → IsStopped (invoked o h m f)
        → Fails
    no_result :
        (o : vm.Object) (h : Headers) (m : vm.Machine) (f : vm.Function) (v : vm.Value)
        → IsReadable o h
        → IsLoaded m f
        → invoked o h m f ≡ returned (some v)
        → (vm.marshal_value v ≡ none)
          ⊎ ((t : String) × (vm.marshal_value v ≡ some t) × (vm.unmarshal_result t ≡ none))
        → Fails

  abbrev pub outcome : Try (TransformResult vm)
  outcome = run_transform vm n body d actions

  small-ltb : len body ≤ 65536 → ltb max_script_size (len body) ≡ false
  small-ltb h = ground arith

  -- A script that is loaded has the outcome of its function.
  loaded-eq :
      (o : vm.Object) (h : Headers) (m : vm.Machine) (f : vm.Function) (e : Ended (Option vm.Value))
      → IsReadable o h
      → IsLoaded m f
      → invoked o h m f ≡ e
      → outcome ≡ transform_result vm (call_outcome vm e)
  unfolding run_transform run run_vm
  loaded-eq o h m f e r l p = ground (
    arith,
    r.payload,
    r.headers,
    refs-listed vm actions,
    small-ltb l.small,
    l.compiled,
    l.defined,
    l.callable,
    p,
  )

  -- The run of a script that is not too large.
  ran-eq :
      (o : vm.Object) (h : Headers) (e : Ended vm.Machine)
      → IsReadable o h
      → len body ≤ 65536
      → vm.run_string n body ≡ e
      → outcome
        ≡ transform_result vm (
            after_run vm e "transform" no_transform
              (record { payload = o; headers = h; actions = some (listed vm actions) }))
  unfolding run_transform run run_vm
  ran-eq o h e r small p =
      ground (arith, r.payload, r.headers, refs-listed vm actions, small-ltb small, p)

  pub Drops-outcome : Drops → outcome ≡ Try.ok dropped
  unfolding transform_result call_outcome
  Drops-outcome q =
      loaded-eq q.object q.header_map q.machine q.function (returned none) q.readable q.loaded
        q.null

  stopped_call :
      (e : Ended (Option vm.Value))
      → IsStopped e
      → (x : ScriptError) × (transform_result vm (call_outcome vm e) ≡ Try.err x)
  unfolding transform_result call_outcome
  stopped_call (returned a) s = absurd s
  stopped_call (raised text) s = (_, refl)
  stopped_call (interrupted text) s = (_, refl)
  stopped_call (panicked text) s = (_, refl)
  stopped_call panicked_interrupted s = (_, refl)

  stopped_run :
      (e : Ended vm.Machine) (name : String) (missing : ScriptError) (v : Event vm.Object)
      → IsStopped e
      → (x : ScriptError) × (transform_result vm (after_run vm e name missing v) ≡ Try.err x)
  unfolding transform_result after_run
  stopped_run (returned a) name missing v s = absurd s
  stopped_run (raised text) name missing v s = (_, refl)
  stopped_run (interrupted text) name missing v s = (_, refl)
  stopped_run (panicked text) name missing v s = (_, refl)
  stopped_run panicked_interrupted name missing v s = (_, refl)

  pub Fails-outcome : Fails → (x : ScriptError) × (outcome ≡ Try.err x)
  unfolding run_transform run run_vm transform_result after_run call_outcome
  Fails-outcome (no_payload e) = (unmarshal, ground arith)
  Fails-outcome (no_headers o p e) = (unmarshal, ground arith)
  Fails-outcome (too_large o h r big) =
      (script_too_large, ground (arith, r.payload, r.headers, refs-listed vm actions))
  Fails-outcome (not_compiled o h r small s) =
      let (x, e) = stopped_run (vm.run_string n body) _ _ _ s in (x, ran-eq o h _ r small refl ∙ e)
  Fails-outcome (no_function o h m r small compiled (inl e)) =
      (no_transform, ran-eq o h _ r small compiled ∙ ground arith)
  Fails-outcome (no_function o h m r small compiled (inr (v, e, q))) =
      (no_transform, ran-eq o h _ r small compiled ∙ ground arith)
  Fails-outcome (stopped o h m f r l s) =
      let (x, e) = stopped_call (invoked o h m f) s in (x, loaded-eq o h m f _ r l refl ∙ e)
  Fails-outcome (no_result o h m f v r l p (inl e)) =
      (marshal, loaded-eq o h m f _ r l p ∙ ground arith)
  Fails-outcome (no_result o h m f v r l p (inr (t, e, q))) =
      (unmarshal, loaded-eq o h m f _ r l p ∙ ground arith)
