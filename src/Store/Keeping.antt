-- ===== src/Store/Keeping.antt =====
-- What the writes of the stores must keep, so that their clients keep it: the interface between
-- an invariant of the tables and the code that calls the stores.
pub mod Writes
use nitrohook.Prelude.{ℕ, String, ◌≡◌, Bool, Option}
use nitrohook.Model.{
  Uuid, Time, RawMessage, Source, Action, Delivery, DeliveryStatus, DeliveryAttempt,
}
use nitrohook.Io.{Db, Host, ok}
use nitrohook.Io.Keeps.{Keeps}
use nitrohook.Store.Deliveries
use nitrohook.Store.Deliveries.{
  Outcome, add_delivery, add_attempt, set_status, set_texts, set_outcome,
}
use nitrohook.Store.Actions
use nitrohook.Store.Actions.{
  ActionCreateParams, ActionUpdateParams, with_params, add_action, change_action, remove_action,
}
use nitrohook.Store.Sources
use nitrohook.Store.Sources.{add_source, change_source, remove_source}

-- The changes of the tables behind the writes of the handlers of requests.
pub record ClientChanges (Q : Db → Type 0) : Type 0 where
  pub source_added : (s r : Source) (db db' : Db) → add_source s db ≡ ok (r, db') → Q db → Q db'
  pub source_changed :
      (now : Time) (slug : String) (name mode body : Option String) (clear : Bool) (r : Source)
      (db db' : Db)
      → change_source now slug name mode body clear db ≡ ok (r, db')
      → Q db
      → Q db'
  pub source_removed : (s : Source) (db : Db) → Q db → Q (remove_source s db)
  pub action_added : (a b : Action) (db db' : Db) → add_action a db ≡ ok (b, db') → Q db → Q db'
  pub action_changed :
      (id : Uuid) (now : Time) (p : ActionUpdateParams) (config : Option RawMessage) (b : Action)
      (db db' : Db)
      → change_action id (with_params now p config) db ≡ ok (b, db')
      → Q db
      → Q db'
  pub action_removed : (id : Uuid) (db : Db) → Q db → Q (remove_action id db)
  pub delivery_added :
      (d e : Delivery) (db db' : Db) → add_delivery d db ≡ ok (e, db') → Q db → Q db'
  pub status : (id : Uuid) (s : DeliveryStatus) (db : Db) → Q db → Q (set_status id s db)

-- The changes behind the other writes of the worker.
pub record WorkerChanges (Q : Db → Type 0) : Type 0 where
  pub texts : (id : Uuid) (p h : RawMessage) (db : Db) → Q db → Q (set_texts id p h db)
  pub attempt_added :
      (a b : DeliveryAttempt) (db db' : Db) → add_attempt a db ≡ ok (b, db') → Q db → Q db'
  pub outcome : (id : Uuid) (o : Outcome) (db : Db) → Q db → Q (set_outcome id o db)

-- The writes of the handlers of requests.
pub record ClientKeeps (host : Host) (Q : Db → Type 0) : Type 0 where
  pub source_created :
      (name slug mode : String) (body : Option String)
      → Keeps Q (Sources.create host name slug mode body)
  pub source_updated :
      (slug : String) (name mode body : Option String) (clear : Bool)
      → Keeps Q (Sources.update host slug name mode body clear)
  pub source_deleted : (slug : String) → Keeps Q (Sources.delete host slug)
  pub action_created : (p : ActionCreateParams) → Keeps Q (Actions.create host p)
  pub action_updated : (id : Uuid) (p : ActionUpdateParams) → Keeps Q (Actions.update host id p)
  pub action_deleted : (id : Uuid) → Keeps Q (Actions.delete host id)
  pub delivery_created :
      (source_id : Uuid) (key : String) (headers payload : RawMessage)
      → Keeps Q (Deliveries.create host source_id key headers payload)
  pub status : (id : Uuid) (s : DeliveryStatus) → Keeps Q (Deliveries.update_status host id s)

-- The writes of the worker.
pub record AttemptKeeps (host : Host) (Q : Db → Type 0) : Type 0 where
  pub status : (id : Uuid) (s : DeliveryStatus) (db : Db) → Q db → Q (Deliveries.set_status id s db)
  pub transformed :
      (id : Uuid) (p h : RawMessage) → Keeps Q (Deliveries.set_transformed host id p h)
  pub attempt_created :
      (delivery_id action_id : Uuid) (n : ℕ)
      → Keeps Q (Deliveries.create_attempt host delivery_id action_id n)
  pub attempt_updated : (id : Uuid) (o : Outcome) → Keeps Q (Deliveries.update_attempt host id o)
