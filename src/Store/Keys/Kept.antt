-- ===== src/Store/Keys/Kept.antt =====
-- Every write of the stores keeps the keys.
use nitrohook.Prelude.{
  String, ◌≡◌, refl, Bool, Option, List, ◌∷◌, Apart, Apart-select, Apart-update_where, All-of_any,
}
use nitrohook.Model.{Uuid, RawMessage, Time, Source, Action}
use nitrohook.Io.{Db, ok, Host}
use nitrohook.Store.Actions.{
  ActionUpdateParams, with_params, add_action, change_action, remove_action,
}
use nitrohook.Store.Sources.{add_source, change_source, remove_source}
use nitrohook.Store.Keeping.{ClientChanges, WorkerChanges, ClientKeeps, AttemptKeeps}
use nitrohook.Store.Keeping.Writes.{client_keeps, attempt_keeps}
use nitrohook.Store.Inversion.{add_source-ok, change_source-ok, add_action-ok, change_action-ok}
use nitrohook.Store.Keys.{
  HasKeys, source_conflict, action_conflict, delivery_conflict, attempt_conflict,
  add_delivery-HasKeys, add_attempt-HasKeys, set_status-HasKeys, set_texts-HasKeys,
}

set_sources :
    (db : Db) (l : List Source)
    → HasKeys db
    → Apart source_conflict l
    → HasKeys (record db { sources = l })
set_sources db l h apart = record {
  sources = apart;
  actions = h.actions;
  deliveries = h.deliveries;
  attempts = h.attempts;
}

set_actions :
    (db : Db) (l : List Action)
    → HasKeys db
    → Apart action_conflict l
    → HasKeys (record db { actions = l })
set_actions db l h apart = record {
  sources = h.sources;
  actions = apart;
  deliveries = h.deliveries;
  attempts = h.attempts;
}

add_source-HasKeys :
    (s r : Source) (db db' : Db) → add_source s db ≡ ok (r, db') → HasKeys db → HasKeys db'
add_source-HasKeys s r db db' e h =
    let (_, free, set) = add_source-ok s r db db' e in
    rw set (
      set_sources db (s ∷ db.sources) h (All-of_any (source_conflict s) db.sources free, h.sources))

change_source-HasKeys :
    (now : Time) (slug : String) (name mode body : Option String) (clear : Bool) (r : Source)
    (db db' : Db)
    → change_source now slug name mode body clear db ≡ ok (r, db')
    → HasKeys db
    → HasKeys db'
change_source-HasKeys now slug name mode body clear r db db' e h =
    let (_, _, set) = change_source-ok now slug name mode body clear r db db' e in
    rw set (
      set_sources db _ h
        (Apart-update_where source_conflict _ _ db.sources (λ x y. refl) (λ x y. refl) h.sources))

remove_source-HasKeys : (s : Source) (db : Db) → HasKeys db → HasKeys (remove_source s db)
unfolding remove_source
remove_source-HasKeys s db h = record {
  sources = Apart-select source_conflict _ db.sources h.sources;
  actions = Apart-select action_conflict _ db.actions h.actions;
  deliveries = Apart-select delivery_conflict _ db.deliveries h.deliveries;
  attempts = Apart-select attempt_conflict _ db.attempts h.attempts;
}

add_action-HasKeys :
    (a b : Action) (db db' : Db) → add_action a db ≡ ok (b, db') → HasKeys db → HasKeys db'
add_action-HasKeys a b db db' e h =
    let (_, free, _, set) = add_action-ok a b db db' e in
    rw set (
      set_actions db (a ∷ db.actions) h (All-of_any (action_conflict a) db.actions free, h.actions))

change_action-HasKeys :
    (id : Uuid) (now : Time) (p : ActionUpdateParams) (config : Option RawMessage) (b : Action)
    (db db' : Db)
    → change_action id (with_params now p config) db ≡ ok (b, db')
    → HasKeys db
    → HasKeys db'
change_action-HasKeys id now p config b db db' e h =
    rw (change_action-ok id (with_params now p config) b db db' e) (
      set_actions db _ h
        (Apart-update_where action_conflict _ _ db.actions (λ x y. refl) (λ x y. refl) h.actions))

remove_action-HasKeys : (id : Uuid) (db : Db) → HasKeys db → HasKeys (remove_action id db)
unfolding remove_action
remove_action-HasKeys id db h = record {
  sources = h.sources;
  actions = Apart-select action_conflict _ db.actions h.actions;
  deliveries = h.deliveries;
  attempts = Apart-select attempt_conflict _ db.attempts h.attempts;
}

pub client_changes : ClientChanges HasKeys
client_changes = record {
  source_added = add_source-HasKeys;
  source_changed = change_source-HasKeys;
  source_removed = remove_source-HasKeys;
  action_added = add_action-HasKeys;
  action_changed = change_action-HasKeys;
  action_removed = remove_action-HasKeys;
  delivery_added = λ d e db db' p h. add_delivery-HasKeys d e db db' h p;
  status = set_status-HasKeys;
}

pub worker_changes : WorkerChanges HasKeys
worker_changes = record {
  texts = set_texts-HasKeys;
  attempt_added = λ a b db db' p h. add_attempt-HasKeys a b db db' h p;
  outcome = λ id o db h. record {
    sources = h.sources;
    actions = h.actions;
    deliveries = h.deliveries;
    attempts =
        Apart-update_where attempt_conflict _ _ db.attempts (λ x y. refl) (λ x y. refl) h.attempts;
  };
}

module _ (host : Host) where
  pub clients-HasKeys : ClientKeeps host HasKeys
  clients-HasKeys = client_keeps host client_changes

  pub attempts-HasKeys : AttemptKeeps host HasKeys
  attempts-HasKeys = attempt_keeps host client_changes worker_changes
