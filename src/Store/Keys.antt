-- ===== src/Store/Keys.antt =====
-- The primary keys and UNIQUE constraints, as an invariant of the tables.
pub mod Kept
use nitrohook.Prelude.{
  any-or_right, ℕ, String, ◌≡◌, refl, Bool, false, ◌||◌, Option, none, some, ◌∷◌, arith, ◌==◌, same,
  All-of_any, Apart, Apart-update_where, any, true, List, [],
}
use nitrohook.Model.{Uuid, RawMessage, Source, Action, Delivery, DeliveryStatus, DeliveryAttempt}
use nitrohook.Io.{Db, Result, ok, err, unique_violation, Host, stored}
use nitrohook.Io.Keeps.{holds_of-ok, Keeps, Keeps-exec, Keeps-write}
use nitrohook.Store.Deliveries.{
  same_delivery, same_attempt, add_delivery, create, add_attempt, create_attempt, set_status,
  set_outcome, set_texts, set_transformed, Outcome, update_attempt,
}

abbrev pub delivery_conflict : Delivery → Delivery → Bool
delivery_conflict d o = o.id == d.id || same_delivery d.source_id d.idempotency_key o

abbrev pub attempt_conflict : DeliveryAttempt → DeliveryAttempt → Bool
attempt_conflict a o = o.id == a.id || same_attempt a.delivery_id a.action_id a.attempt_number o

abbrev pub source_conflict : Source → Source → Bool
source_conflict s o = o.id == s.id || same o.slug s.slug

abbrev pub action_conflict : Action → Action → Bool
action_conflict a o = o.id == a.id

-- No two sources share an id or a slug, and no two actions an id; no two deliveries share an id,
-- or a source and an idempotency key; no two attempts share an id, or a delivery, an action and a
-- number.
pub record HasKeys (db : Db) : Type 0 where
  pub sources : Apart source_conflict db.sources
  pub actions : Apart action_conflict db.actions
  pub deliveries : Apart delivery_conflict db.deliveries
  pub attempts : Apart attempt_conflict db.attempts

-- An INSERT that succeeds returns its row, which was in conflict with none.
pub add_attempt-ok :
    (a b : DeliveryAttempt) (db db' : Db)
    → add_attempt a db ≡ ok (b, db')
    → (b ≡ a)
      × (db' ≡ record db { attempts = a ∷ db.attempts })
      × (any (attempt_conflict a) db.attempts ≡ false)
unfolding add_attempt
add_attempt-ok a b db db' h = ground arith

pub add_delivery-ok :
    (d e : Delivery) (db db' : Db)
    → add_delivery d db ≡ ok (e, db')
    → (e ≡ d)
      × (db' ≡ record db { deliveries = d ∷ db.deliveries })
      × (any (delivery_conflict d) db.deliveries ≡ false)
unfolding add_delivery
add_delivery-ok d e db db' h = ground arith

-- An attempt with the keys of another is refused.
pub add_attempt-taken :
    (a : DeliveryAttempt) (db : Db)
    → any (same_attempt a.delivery_id a.action_id a.attempt_number) db.attempts ≡ true
    → add_attempt a db ≡ err unique_violation
unfolding add_attempt
add_attempt-taken a db taken = rw (
    any-or_right (λ o. o.id == a.id) (same_attempt a.delivery_id a.action_id a.attempt_number)
      db.attempts taken)

pub add_attempt-HasKeys :
    (a b : DeliveryAttempt) (db db' : Db)
    → HasKeys db
    → add_attempt a db ≡ ok (b, db')
    → HasKeys db'
add_attempt-HasKeys a b db db' h e =
    let (_, e', free) = add_attempt-ok a b db db' e in
    rw e' (record {
      sources = h.sources;
      actions = h.actions;
      deliveries = h.deliveries;
      attempts = (All-of_any (attempt_conflict a) db.attempts free, h.attempts);
    })

pub add_delivery-HasKeys :
    (d e : Delivery) (db db' : Db) → HasKeys db → add_delivery d db ≡ ok (e, db') → HasKeys db'
add_delivery-HasKeys d e db db' h p =
    let (_, p', free) = add_delivery-ok d e db db' p in
    rw p' (record {
      sources = h.sources;
      actions = h.actions;
      deliveries = (All-of_any (delivery_conflict d) db.deliveries free, h.deliveries);
      attempts = h.attempts;
    })

pub set_status-HasKeys :
    (id : Uuid) (s : DeliveryStatus) (db : Db) → HasKeys db → HasKeys (set_status id s db)
set_status-HasKeys id s db h = record {
  sources = h.sources;
  actions = h.actions;
  deliveries =
      Apart-update_where delivery_conflict _ _ db.deliveries (λ x y. refl) (λ x y. refl)
        h.deliveries;
  attempts = h.attempts;
}

pub set_texts-HasKeys :
    (id : Uuid) (p q : RawMessage) (db : Db) → HasKeys db → HasKeys (set_texts id p q db)
set_texts-HasKeys id p q db h = record {
  sources = h.sources;
  actions = h.actions;
  deliveries =
      Apart-update_where delivery_conflict _ _ db.deliveries (λ x y. refl) (λ x y. refl)
        h.deliveries;
  attempts = h.attempts;
}
