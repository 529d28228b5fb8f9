-- ===== src/Store/Inversion.antt =====
-- What a write that succeeds has done.
use nitrohook.Prelude.{
  String, ◌≡◌, refl, Bool, true, false, ◌||◌, Option, some, ◌∷◌, arith, ◌==◌, same, any, first,
  update_where, Option-cases, Bool-cases, inl, inr,
}
use nitrohook.Model.{Uuid, Time, Source, Action, Delivery, DeliveryAttempt}
use nitrohook.Io.{Db, ok}
use nitrohook.Store.Deliveries.{add_delivery, add_attempt}
use nitrohook.Store.Sources.{mode_ok, add_source, changed, change_source}
use nitrohook.Store.Actions.{coalesce_or, passes_checks, add_action, change_action}

pub add_source-ok :
    (s r : Source) (db db' : Db)
    → add_source s db ≡ ok (r, db')
    → (r ≡ s)
      × (any (λ o. o.id == s.id || same o.slug s.slug) db.sources ≡ false)
      × (db' ≡ record db { sources = s ∷ db.sources })
unfolding add_source
add_source-ok s r db db' h = ground arith

-- Its mode passed the check.
pub add_source-mode_ok :
    (s r : Source) (db db' : Db) → add_source s db ≡ ok (r, db') → mode_ok s.mode ≡ true
unfolding add_source
add_source-mode_ok s r db db' h = ground arith

pub change_source-ok :
    (now : Time) (slug : String) (name mode body : Option String) (clear : Bool) (r : Source)
    (db db' : Db)
    → change_source now slug name mode body clear db ≡ ok (r, db')
    → (s : Source) × (mode_ok (coalesce_or mode s.mode) ≡ true)
      × (db' ≡ record db {
        sources =
            update_where (λ o. same o.slug slug) (changed now name mode body clear) db.sources;
      })
unfolding change_source
change_source-ok now slug name mode body clear r db db' h =
    elim (Option-cases (first (λ s. same s.slug slug) db.sources)) [
      | inl e ↦ ground arith
      | inr (s, e) ↦ elim (Bool-cases (mode_ok (coalesce_or mode s.mode))) [
        | inl good ↦ (s, good, ground arith)
        | inr bad ↦ ground arith
      ]
    ]

pub add_action-ok :
    (a b : Action) (db db' : Db)
    → add_action a db ≡ ok (b, db')
    → (passes_checks a ≡ true)
      × (any (λ o. o.id == a.id) db.actions ≡ false)
      × (any (λ s. s.id == a.source_id) db.sources ≡ true)
      × (db' ≡ record db { actions = a ∷ db.actions })
unfolding add_action
add_action-ok a b db db' h = ground arith

pub change_action-ok :
    (id : Uuid) (f : Action → Action) (b : Action) (db db' : Db)
    → change_action id f db ≡ ok (b, db')
    → db' ≡ record db { actions = update_where (λ o. o.id == id) f db.actions }
unfolding change_action
change_action-ok id f b db db' h = elim (Option-cases (first (λ a. a.id == id) db.actions)) [
  | inl e ↦ ground arith
  | inr (a, e) ↦ ground arith
]

pub add_delivery-source :
    (d e : Delivery) (db db' : Db)
    → add_delivery d db ≡ ok (e, db')
    → (any (λ s. s.id == d.source_id) db.sources ≡ true)
      × (db' ≡ record db { deliveries = d ∷ db.deliveries })
unfolding add_delivery
add_delivery-source d e db db' h = ground arith

pub add_attempt-rows :
    (a b : DeliveryAttempt) (db db' : Db)
    → add_attempt a db ≡ ok (b, db')
    → (any (λ d. d.id == a.delivery_id) db.deliveries ≡ true)
      × (any (λ o. o.id == a.action_id) db.actions ≡ true)
      × (db' ≡ record db { attempts = a ∷ db.attempts })
unfolding add_attempt
add_attempt-rows a b db db' h = ground arith

-- An update of a row that is there succeeds.
pub change_action-found :
    (id : Uuid) (f : Action → Action) (a : Action) (db : Db)
    → first (λ o. o.id == id) db.actions ≡ some a
    → change_action id f db
      ≡ ok (f a, record db { actions = update_where (λ o. o.id == id) f db.actions })
unfolding change_action
change_action-found id f a db found = rw (found, change_action) refl
