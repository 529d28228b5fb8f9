-- ===== src/Web/Scripts.antt =====
-- web/source.go: the script of a source, saved, cleared and tried.
pub mod Saving
use Prim.Native.String.{◌++◌}
use nitrohook.Prelude.{
  ℕ, String, Bool, true, false, Option, none, some, List, [], ◌==◌, if◌then◌else◌,
}
use nitrohook.Model.{Uuid, RawMessage, Source, Action, Delivery}
use nitrohook.Io.{Error, Result, ok, err, Host, Io, ◌>>=◌, ◌>>◌, pure, call}
use nitrohook.Script.{
  Vm, Headers, ScriptError, Ended, returned, raised, interrupted, panicked, panicked_interrupted,
  Try, TransformInput, TransformResult, validate, run,
}
use nitrohook.Store.Sources
use nitrohook.Store.Actions
use nitrohook.Store.Deliveries
use nitrohook.Worker.Process.{refs_of}
use nitrohook.Web.Pages.{Request, Forms, Response, text, aborted, blank_source_data, is_blank}
use nitrohook.Web.Sources.{or_empty, or_text, fragment, with_source}

-- What the variables `source`, `scriptError` and `scriptSuccess` hold after the script was saved
-- or not. An Update that fails leaves nil in `source`.
pub record Saved : Type 0 where
  pub source : Option Source
  pub script_error : String
  pub script_success : String

abbrev pub after_update : String → String → Result Source → Saved
after_update success failure (ok s) = record {
  source = some s;
  script_error = "";
  script_success = success;
}
after_update success failure (err e) = record {
  source = none;
  script_error = failure;
  script_success = "";
}

-- An error text of a validation, if it returns.
abbrev pub validated : Vm → Ended (Option ScriptError) → Option (Option String)
validated vm (returned none) = some none
validated vm (returned (some e)) = some (some (vm.error_text e))
validated vm _ = none

module _ (host : Host) where
  -- The card. Without a source, source.ID is a nil dereference.
  unfoldable pub script_card : String → Saved → Option Source → Io Response
  script_card slug saved none = pure aborted
  script_card slug saved (some s) = do
    l ← Actions.list host s.id
    ds ← Deliveries.list host (some slug) 10
    fragment "source-script" "script-card" (record blank_source_data {
      source = some s;
      actions = or_empty l;
      deliveries = or_empty ds;
      script_error = saved.script_error;
      script_success = saved.script_success;
    })

  unfoldable pub clear_script : String → Io Response
  unfolding script_card
  clear_script slug = do
    u ← Sources.update host slug none none none true
    let saved = after_update "Script cleared" "Failed to clear script" u
    script_card slug saved saved.source

  unfoldable pub save_valid : String → String → Source → Option (Option String) → Io Response
  unfolding script_card
  save_valid slug body s none = pure aborted
  save_valid slug body s (some (some e)) =
      script_card slug
        (record { source = some s; script_error = "Invalid script: " ++ e; script_success = "" })
        (some s)
  save_valid slug body s (some none) = do
    u ← Sources.update host slug none none (some body) false
    let saved = after_update "Script saved" "Failed to save script" u
    script_card slug saved saved.source

  unfoldable pub save_script : Vm → String → String → Source → Io Response
  unfolding save_valid
  save_script vm slug body s = do
    n ← call
    save_valid slug body s (validated vm (validate vm n body))

  -- A body of white space clears the script.
  unfoldable pub update_source_script : Vm → Forms → Request → String → Io Response
  unfolding clear_script save_script
  update_source_script vm f r slug =
      let body = r.form "script_body" in
      with_source host slug
        λ s. if is_blank (f.trim body) then clear_script slug else save_script vm slug body s

  unfoldable pub clear_source_script : String → Io Response
  unfolding script_card
  clear_source_script slug = do
    u ← Sources.update host slug none none none true
    or_text 500 "Failed to clear script" u λ s.
        script_card slug
          (record { source = some s; script_error = ""; script_success = "Script cleared" })
          (some s)

-- The fragment "script-test-result": an error, or a result.
pub data Trial (vm : Vm) : Type 0 where
  refused : String → Trial vm
  result : TransformResult vm → Trial vm

abbrev pub trial_of : (vm : Vm) → Try (TransformResult vm) → Trial vm
trial_of vm (Try.err e) = refused (vm.error_text e)
trial_of vm (Try.ok t) = result t

-- The payload and the headers of a delivery as the script gets them. `raw` is the object with the
-- text under "_raw".
abbrev pub payload_of : (vm : Vm) → (String → vm.Object) → RawMessage → vm.Object
payload_of vm raw payload = elim (vm.unmarshal_object payload) [ none ↦ raw payload | some o ↦ o ]

abbrev pub headers_of : Vm → RawMessage → Headers
headers_of vm headers = elim (vm.unmarshal_headers headers) [ none ↦ [] | some h ↦ h ]

module _ (host : Host) (vm : Vm) (raw : String → vm.Object) where
  unfoldable pub trial_run : Source → String → Delivery → Io (Trial vm)
  trial_run s body d = do
    l ← Actions.list_active_by_source host s.id
    n ← call
    pure (
        trial_of vm (
          run vm n body (record {
            payload = payload_of vm raw d.payload;
            headers = headers_of vm d.headers;
            actions = refs_of (or_empty l);
          })))

  unfoldable pub trial_on : Forms → Source → String → Result Delivery → Io (Trial vm)
  unfolding trial_run
  trial_on f s body (err e) = pure (refused "Delivery not found for this source")
  trial_on f s body (ok d) =
      if d.source_id == s.id
      then if is_blank (f.trim body)
        then pure (refused "Script body is empty")
        else trial_run s body d
      else pure (refused "Delivery not found for this source")

  unfoldable pub trial_by : Forms → Source → String → Option Uuid → Io (Trial vm)
  unfolding trial_on
  trial_by f s body none = pure (refused "Invalid delivery ID")
  trial_by f s body (some id) = do d ← Deliveries.get_by_id host id; trial_on f s body d

  unfoldable pub trial_from : Forms → Request → Result Source → Io (Trial vm)
  unfolding trial_by
  trial_from f r (err e) = pure (refused "Source not found")
  trial_from f r (ok s) =
      trial_by f s (r.form "script_body") (host.uuid_parse (r.form "delivery_id"))

  unfoldable pub test_source_script : Forms → Request → String → Io (Trial vm)
  unfolding trial_from
  test_source_script f r slug =
      if is_blank (f.trim (r.form "delivery_id"))
      then pure (refused "Select a payload to test against")
      else do s ← Sources.get_by_slug host slug; trial_from f r s
