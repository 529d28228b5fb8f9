-- ===== src/Worker/Process/Transform.antt =====
-- runTransform and applyActionTransform: the scripts of a source and of an action.
use nitrohook.Prelude.{ℕ, String, Option, none, some, List, [], ◌∷◌, same, if◌then◌else◌}
use nitrohook.Model.{RawMessage, Action, Delivery}
use nitrohook.Script.{
  Vm, Headers, ActionRef, Try, ok, err, unmarshal, TransformResult, ActionTransformResult, skipped,
  reshaped, run, run_action_transform,
}

-- A script body that is set and not empty.
abbrev pub script_of : Option String → Option String
script_of none = none
script_of (some body) = if same body "" then none else some body

abbrev pub text_or_empty : Option String → String
text_or_empty none = ""
text_or_empty (some s) = s

abbrev pub refs_of : List Action → List ActionRef
refs_of [] = []
refs_of (a ∷ rest) = record { id = a.id; target_url = text_or_empty a.target_url } ∷ refs_of rest

module _ (vm : Vm) where
  open vm use {Object, unmarshal_object, unmarshal_headers, marshal_object, marshal_headers}

  unfoldable pub run_transform : ℕ → String → Delivery → List Action → Try (TransformResult vm)
  run_transform n body delivery actions = elim (unmarshal_object delivery.payload) [
    | none ↦ err unmarshal
    | some payload ↦ elim (unmarshal_headers delivery.headers) [
      | none ↦ err unmarshal
      | some headers ↦
          run vm n body (record { payload = payload; headers = headers; actions = refs_of actions })
    ]
  ]

  -- The result is marshalled; what cannot be marshalled leaves the original.
  marshalled : Object → Headers → RawMessage → RawMessage → Option (RawMessage × RawMessage)
  marshalled object header_map payload headers = elim (marshal_object object) [
    | none ↦ some (payload, headers)
    | some p ↦ elim (marshal_headers header_map) [
      | none ↦ some (payload, headers)
      | some h ↦ some (p, h)
    ]
  ]

  after_script :
      Try (ActionTransformResult vm) → RawMessage → RawMessage → Option (RawMessage × RawMessage)
  unfolding marshalled
  after_script (err e) payload headers = some (payload, headers)
  after_script (ok skipped) payload headers = none
  after_script (ok (reshaped object header_map)) payload headers =
      marshalled object header_map payload headers

  -- `none` is the result (nil, nil, true): the action is skipped.
  unfoldable pub apply_action_transform :
      ℕ → Action → RawMessage → RawMessage → Option (RawMessage × RawMessage)
  unfolding after_script
  apply_action_transform n action payload headers = elim (script_of action.transform_script) [
    | none ↦ some (payload, headers)
    | some body ↦ elim (unmarshal_object payload) [
      | none ↦ some (payload, headers)
      | some object ↦ elim (unmarshal_headers headers) [
        | none ↦ some (payload, headers)
        | some header_map ↦
            after_script (run_action_transform vm n body object header_map) payload headers
      ]
    ]
  ]
