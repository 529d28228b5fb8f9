-- ===== src/Store/References.antt =====
-- The foreign keys of the tables, as an invariant: no row refers to a row that is gone.
use nitrohook.Prelude.{
  any-cons, any-update_where, any_kept, none_gone, String, ◌≡◌, refl, ◌∙◌, Bool, true, false, not,
  Option, List, arith, ◌==◌, any, update_where, All, All-map, All-update_where, All-select_test,
}
use nitrohook.Model.{Uuid, Time, RawMessage, Source, Action, Delivery, DeliveryAttempt}
use nitrohook.Io.{Db, ok}
use nitrohook.Store.Deliveries.{with_outcome, add_delivery, add_attempt}
use nitrohook.Store.Actions.{
  ActionUpdateParams, with_params, add_action, change_action, remove_action,
}
use nitrohook.Store.Sources.{add_source, change_source, remove_source}
use nitrohook.Store.Keeping.{ClientChanges, WorkerChanges}
use nitrohook.Store.Inversion.{
  add_source-ok, change_source-ok, add_action-ok, change_action-ok, add_delivery-source,
  add_attempt-rows,
}

abbrev pub has_source : Uuid → List Source → Bool
has_source id sources = any (λ s. s.id == id) sources

abbrev pub has_action : Uuid → List Action → Bool
has_action id actions = any (λ a. a.id == id) actions

abbrev pub has_delivery : Uuid → List Delivery → Bool
has_delivery id deliveries = any (λ d. d.id == id) deliveries

-- REFERENCES of migrations 000001 to 000007: the source of an action and of a delivery is there,
-- and so are the delivery and the action of an attempt.
pub record HasReferences (db : Db) : Type 0 where
  pub actions : All (λ a. has_source a.source_id db.sources ≡ true) db.actions
  pub deliveries : All (λ d. has_source d.source_id db.sources ≡ true) db.deliveries
  pub attempts :
      All
        (λ t.
          (has_delivery t.delivery_id db.deliveries ≡ true)
          × (has_action t.action_id db.actions ≡ true))
        db.attempts

add_source-HasReferences :
    (s r : Source) (db db' : Db)
    → add_source s db ≡ ok (r, db')
    → HasReferences db
    → HasReferences db'
add_source-HasReferences s r db db' e h =
    let (_, _, set) = add_source-ok s r db db' e in
    rw set (record {
      actions = All-map _ _ (λ a k. any-cons _ s db.sources k) db.actions h.actions;
      deliveries = All-map _ _ (λ d k. any-cons _ s db.sources k) db.deliveries h.deliveries;
      attempts = h.attempts;
    })

change_source-HasReferences :
    (now : Time) (slug : String) (name mode body : Option String) (clear : Bool) (r : Source)
    (db db' : Db)
    → change_source now slug name mode body clear db ≡ ok (r, db')
    → HasReferences db
    → HasReferences db'
change_source-HasReferences now slug name mode body clear r db db' e h =
    let (_, _, set) = change_source-ok now slug name mode body clear r db db' e in
    rw set (record {
      actions =
          All-map _ _ (λ a k. any-update_where _ _ _ db.sources (λ x. refl) ∙ k) db.actions
            h.actions;
      deliveries =
          All-map _ _ (λ d k. any-update_where _ _ _ db.sources (λ x. refl) ∙ k) db.deliveries
            h.deliveries;
      attempts = h.attempts;
    })

remains : (a b c : Uuid) → not (b == c) ≡ true → (a == b) ≡ true → (a == c) ≡ false
remains a b c k e = ground arith

remove_source-HasReferences :
    (s : Source) (db : Db) → HasReferences db → HasReferences (remove_source s db)
unfolding remove_source
remove_source-HasReferences s db h = record {
  actions =
      All-map _ _
        (λ a k.
          any_kept _ _ db.sources k.0
            (none_gone _ _ db.sources λ x. remains x.id a.source_id s.id k.1))
        _ (All-select_test _ _ db.actions h.actions);
  deliveries =
      All-map _ _
        (λ d k.
          any_kept _ _ db.sources k.0
            (none_gone _ _ db.sources λ x. remains x.id d.source_id s.id k.1))
        _ (All-select_test _ _ db.deliveries h.deliveries);
  attempts =
      All-map _ _
        (λ t k. (
          any_kept _ (λ d. d.source_id == s.id) db.deliveries k.0.0 (ground arith),
          any_kept _ (λ a. a.source_id == s.id) db.actions k.0.1 (ground arith),
        ))
        _ (All-select_test _ _ db.attempts h.attempts);
}

add_action-HasReferences :
    (a b : Action) (db db' : Db)
    → add_action a db ≡ ok (b, db')
    → HasReferences db
    → HasReferences db'
add_action-HasReferences a b db db' e h =
    let (_, _, there, set) = add_action-ok a b db db' e in
    rw set (record {
      actions = (there, h.actions);
      deliveries = h.deliveries;
      attempts = All-map _ _ (λ t k. (k.0, any-cons _ a db.actions k.1)) db.attempts h.attempts;
    })

change_action-HasReferences :
    (id : Uuid) (now : Time) (p : ActionUpdateParams) (config : Option RawMessage) (b : Action)
    (db db' : Db)
    → change_action id (with_params now p config) db ≡ ok (b, db')
    → HasReferences db
    → HasReferences db'
change_action-HasReferences id now p config b db db' e h =
    rw (change_action-ok id (with_params now p config) b db db' e) (record {
      actions = All-update_where _ _ (with_params now p config) db.actions (λ x _ k. k) h.actions;
      deliveries = h.deliveries;
      attempts =
          All-map _ _ (λ t k. (k.0, any-update_where _ _ _ db.actions (λ x. refl) ∙ k.1))
            db.attempts h.attempts;
    })

remove_action-HasReferences :
    (id : Uuid) (db : Db) → HasReferences db → HasReferences (remove_action id db)
unfolding remove_action
remove_action-HasReferences id db h = record {
  actions = All-map _ _ (λ a k. k.0) _ (All-select_test _ _ db.actions h.actions);
  deliveries = h.deliveries;
  attempts =
      All-map _ _
        (λ t k. (
          k.0.0,
          any_kept _ _ db.actions k.0.1
              (none_gone _ _ db.actions λ x. remains x.id t.action_id id k.1),
        ))
        _ (All-select_test _ _ db.attempts h.attempts);
}

add_delivery-HasReferences :
    (d e : Delivery) (db db' : Db)
    → add_delivery d db ≡ ok (e, db')
    → HasReferences db
    → HasReferences db'
add_delivery-HasReferences d e db db' p h =
    let (there, set) = add_delivery-source d e db db' p in
    rw set (record {
      actions = h.actions;
      deliveries = (there, h.deliveries);
      attempts = All-map _ _ (λ t k. (any-cons _ d db.deliveries k.0, k.1)) db.attempts h.attempts;
    })

-- An update of deliveries that leaves their ids and their sources.
update_deliveries-HasReferences :
    (p : Delivery → Bool) (f : Delivery → Delivery) (db : Db)
    → ((d : Delivery) → (f d).id ≡ d.id)
    → ((d : Delivery) → (f d).source_id ≡ d.source_id)
    → HasReferences db
    → HasReferences (record db { deliveries = update_where p f db.deliveries })
update_deliveries-HasReferences p f db i j h = record {
  actions = h.actions;
  deliveries = All-update_where _ p f db.deliveries (λ d _ k. rw (j d) k) h.deliveries;
  attempts =
      All-map _ _ (λ t k. (any-update_where _ p f db.deliveries (λ d. rw (i d) refl) ∙ k.0, k.1))
        db.attempts h.attempts;
}

add_attempt-HasReferences :
    (a b : DeliveryAttempt) (db db' : Db)
    → add_attempt a db ≡ ok (b, db')
    → HasReferences db
    → HasReferences db'
add_attempt-HasReferences a b db db' e h =
    let (delivery, action, set) = add_attempt-rows a b db db' e in
    rw set (record {
      actions = h.actions;
      deliveries = h.deliveries;
      attempts = ((delivery, action), h.attempts);
    })

pub client_changes : ClientChanges HasReferences
client_changes = record {
  source_added = add_source-HasReferences;
  source_changed = change_source-HasReferences;
  source_removed = remove_source-HasReferences;
  action_added = add_action-HasReferences;
  action_changed = change_action-HasReferences;
  action_removed = remove_action-HasReferences;
  delivery_added = add_delivery-HasReferences;
  status = λ id s db. update_deliveries-HasReferences _ _ db (λ d. refl) (λ d. refl);
}

pub worker_changes : WorkerChanges HasReferences
worker_changes = record {
  texts = λ id p q db. update_deliveries-HasReferences _ _ db (λ d. refl) (λ d. refl);
  attempt_added = add_attempt-HasReferences;
  outcome = λ id o db h. record {
    actions = h.actions;
    deliveries = h.deliveries;
    attempts = All-update_where _ _ (with_outcome o) db.attempts (λ a _ k. k) h.attempts;
  };
}
