-- ===== src/Store/Values.antt =====
-- The CHECK constraints of the tables, as an invariant: what the columns hold.
use nitrohook.Prelude.{
  String, ◌≡◌, refl, Bool, true, Option, none, some, arith, All, All-update_where, All-select,
}
use nitrohook.Model.{Uuid, Time, RawMessage, Source, Action}
use nitrohook.Io.{Db}
use nitrohook.Store.Actions.{
  ActionUpdateParams, coalesce, coalesce_or, is_set, passes_checks, with_params, remove_action,
}
use nitrohook.Store.Sources.{mode_ok, changed, remove_source}
use nitrohook.Store.Keeping.{ClientChanges, WorkerChanges}
use nitrohook.Store.Inversion.{
  add_source-ok, add_source-mode_ok, change_source-ok, add_action-ok, change_action-ok,
  add_delivery-source, add_attempt-rows,
}

-- The mode of a source is "record" or "active"; the type of an action is one of the five, a
-- webhook has a target URL and a javascript action a script.
pub record HasValues (db : Db) : Type 0 where
  pub sources : All (λ s. mode_ok s.mode ≡ true) db.sources
  pub actions : All (λ a. passes_checks a ≡ true) db.actions

is_set-coalesce :
    {A : Type 0} (new old : Option A) → is_set old ≡ true → is_set (coalesce new old) ≡ true
is_set-coalesce none old h = h
is_set-coalesce (some a) old h = refl

-- An update cannot make an action fail the checks: COALESCE sets no column to NULL.
passes_checks-with_params :
    (now : Time) (p : ActionUpdateParams) (config : Option RawMessage) (a : Action)
    → passes_checks a ≡ true
    → passes_checks (with_params now p config a) ≡ true
unfolding passes_checks
passes_checks-with_params now p config a h =
    ground (
      arith,
      is_set-coalesce p.target_url a.target_url,
      is_set-coalesce p.script_body a.script_body,
    )

-- The mode of a row that is changed: the new one, which the check on the first row has passed, or
-- its own.
changed-mode_ok :
    (now : Time) (name mode body : Option String) (clear : Bool) (s x : Source)
    → mode_ok (coalesce_or mode s.mode) ≡ true
    → mode_ok x.mode ≡ true
    → mode_ok (changed now name mode body clear x).mode ≡ true
changed-mode_ok now name none body clear s x new old = old
changed-mode_ok now name (some m) body clear s x new old = new

source_removed : (s : Source) (db : Db) → HasValues db → HasValues (remove_source s db)
unfolding remove_source
source_removed s db h = record {
  sources = All-select _ _ db.sources h.sources;
  actions = All-select _ _ db.actions h.actions;
}

action_removed : (id : Uuid) (db : Db) → HasValues db → HasValues (remove_action id db)
unfolding remove_action
action_removed id db h = record {
  sources = h.sources;
  actions = All-select _ _ db.actions h.actions;
}

pub client_changes : ClientChanges HasValues
client_changes = record {
  source_added = λ s r db db' e h.
      let (_, _, set) = add_source-ok s r db db' e in
      rw set
        (record { sources = (add_source-mode_ok s r db db' e, h.sources); actions = h.actions });
  source_changed = λ now slug name mode body clear r db db' e h.
      let (s, good, set) = change_source-ok now slug name mode body clear r db db' e in
      rw set (record {
        sources =
            All-update_where _ _ (changed now name mode body clear) db.sources
              (λ x _. changed-mode_ok now name mode body clear s x good) h.sources;
        actions = h.actions;
      });
  source_removed = source_removed;
  action_added = λ a b db db' e h.
      let (checked, _, _, set) = add_action-ok a b db db' e in
      rw set (record { sources = h.sources; actions = (checked, h.actions) });
  action_changed = λ id now p config b db db' e h.
      rw (change_action-ok id (with_params now p config) b db db' e) (record {
        sources = h.sources;
        actions =
            All-update_where _ _ (with_params now p config) db.actions
              (λ a _. passes_checks-with_params now p config a) h.actions;
      });
  action_removed = action_removed;
  delivery_added = λ d e db db' p h.
      let (_, set) = add_delivery-source d e db db' p in
      rw set (record { sources = h.sources; actions = h.actions });
  status = λ id s db h. record { sources = h.sources; actions = h.actions };
}

pub worker_changes : WorkerChanges HasValues
worker_changes = record {
  texts = λ id p q db h. record { sources = h.sources; actions = h.actions };
  attempt_added = λ a b db db' e h.
      let (_, _, set) = add_attempt-rows a b db db' e in
      rw set (record { sources = h.sources; actions = h.actions });
  outcome = λ id o db h. record { sources = h.sources; actions = h.actions };
}
