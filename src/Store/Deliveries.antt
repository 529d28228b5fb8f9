-- ===== src/Store/Deliveries.antt =====
-- internal/store/delivery.go: deliveries and their attempts. Each SQL text is a function on the
-- tables, with the constraints of migrations/*.up.sql, and each method runs one such function.
use Prim.Native.Nat.{max}
use nitrohook.Prelude.{
  ℕ, String, Bool, true, false, ◌&&◌, ◌||◌, Option, none, some, List, [], ◌∷◌, leb, ◌==◌, same,
  if◌then◌else◌, take, any, select, first, update_where, order_by,
}
use nitrohook.Model.{
  Uuid, Time, RawMessage, Delivery, DeliveryStatus, pending, DeliveryAttempt, AttemptStatus, failed,
}
use nitrohook.Io.{
  Db, Result, ok, err, unique_violation, foreign_key_violation, Host, Io, query, exec, scan, stored,
}

-- UNIQUE (source_id, idempotency_key) of migration 000003.
abbrev pub same_delivery : Uuid → String → Delivery → Bool
same_delivery source_id key d = d.source_id == source_id && same d.idempotency_key key

-- The row that an INSERT makes, with the defaults of its columns.
abbrev pub new_delivery : Uuid → Time → Uuid → String → RawMessage → RawMessage → Delivery
new_delivery id now source_id key headers payload = record {
  id = id;
  source_id = source_id;
  idempotency_key = key;
  headers = headers;
  payload = payload;
  status = pending;
  received_at = now;
  transformed_payload = none;
  transformed_headers = none;
}

-- The keys, and the reference to the source, that an INSERT must respect.
unfoldable pub add_delivery : Delivery → Db → Result (Delivery × Db)
add_delivery d db =
    if any (λ o. o.id == d.id || same_delivery d.source_id d.idempotency_key o) db.deliveries
    then err unique_violation
    else if any (λ s. s.id == d.source_id) db.sources
    then ok (d, record db { deliveries = d ∷ db.deliveries })
    else err foreign_key_violation

unfoldable pub create : Host → Uuid → String → RawMessage → RawMessage → Io (Result Delivery)
unfolding add_delivery
create host source_id key headers payload = exec host λ n db. stored (host.jsonb headers) λ h.
    stored (host.jsonb payload)
      λ p. add_delivery (new_delivery (host.gen_uuid n) (host.now n) source_id key h p) db

unfoldable pub get_by_id : Host → Uuid → Io (Result Delivery)
get_by_id host id = query host λ _ db. scan (first (λ d. d.id == id) db.deliveries)

-- JOIN sources s ON d.source_id = s.id WHERE s.slug = $1, where a filter is given.
abbrev pub of_slug : Option String → Db → Delivery → Bool
of_slug none db d = true
of_slug (some slug) db d = any (λ s. s.id == d.source_id && same s.slug slug) db.sources

unfoldable pub list : Host → Option String → ℕ → Io (Result (List Delivery))
list host source_slug limit = query host λ _ db. ok (
    take limit (
      order_by (λ a b. leb b.received_at a.received_at)
        (select (of_slug source_slug db) db.deliveries)))

abbrev pub set_status : Uuid → DeliveryStatus → Db → Db
set_status id status db = record db {
  deliveries = update_where (λ d. d.id == id) (λ d. record d { status = status }) db.deliveries;
}

unfoldable pub update_status : Host → Uuid → DeliveryStatus → Io (Result (Unit {0}))
update_status host id status = exec host λ _ db. ok (tt, set_status id status db)

abbrev pub set_texts : Uuid → RawMessage → RawMessage → Db → Db
set_texts id payload headers db = record db {
  deliveries =
      update_where (λ d. d.id == id)
        (λ d. record d { transformed_payload = some payload; transformed_headers = some headers })
        db.deliveries;
}

unfoldable pub set_transformed : Host → Uuid → RawMessage → RawMessage → Io (Result (Unit {0}))
set_transformed host id payload headers = exec host λ _ db.
    stored (host.jsonb payload) λ p. stored (host.jsonb headers) λ h. ok (tt, set_texts id p h db)

abbrev pub is_pending : DeliveryStatus → Bool
is_pending pending = true
is_pending _ = false

unfoldable pub list_pending : Host → ℕ → Io (Result (List Delivery))
list_pending host limit = query host λ _ db. ok (
    take limit (
      order_by (λ a b. leb a.received_at b.received_at)
        (select (λ d. is_pending d.status) db.deliveries)))

-- UNIQUE (delivery_id, action_id, attempt_number) of migrations 000004 and 000006.
abbrev pub same_attempt : Uuid → Uuid → ℕ → DeliveryAttempt → Bool
same_attempt delivery_id action_id number a =
    a.delivery_id == delivery_id && a.action_id == action_id && a.attempt_number == number

abbrev pub new_attempt : Uuid → Time → Uuid → Uuid → ℕ → DeliveryAttempt
new_attempt id now delivery_id action_id number = record {
  id = id;
  delivery_id = delivery_id;
  action_id = action_id;
  attempt_number = number;
  status = AttemptStatus.pending;
  response_status = none;
  response_body = none;
  error_message = none;
  next_retry_at = none;
  created_at = now;
}

unfoldable pub add_attempt : DeliveryAttempt → Db → Result (DeliveryAttempt × Db)
add_attempt a db =
    if any (λ o. o.id == a.id || same_attempt a.delivery_id a.action_id a.attempt_number o)
      db.attempts
    then err unique_violation
    else if any (λ d. d.id == a.delivery_id) db.deliveries
        && any (λ o. o.id == a.action_id) db.actions
    then ok (a, record db { attempts = a ∷ db.attempts })
    else err foreign_key_violation

unfoldable pub create_attempt : Host → Uuid → Uuid → ℕ → Io (Result DeliveryAttempt)
unfolding add_attempt
create_attempt host delivery_id action_id number =
    exec host
      λ n. add_attempt (new_attempt (host.gen_uuid n) (host.now n) delivery_id action_id number)

-- The columns that an attempt's outcome fills.
pub record Outcome : Type 0 where
  pub status : AttemptStatus
  pub response_status : Option ℕ
  pub response_body : Option String
  pub error_message : Option String
  pub next_retry_at : Option Time

abbrev pub with_outcome : Outcome → DeliveryAttempt → DeliveryAttempt
with_outcome o a = record a {
  status = o.status;
  response_status = o.response_status;
  response_body = o.response_body;
  error_message = o.error_message;
  next_retry_at = o.next_retry_at;
}

abbrev pub set_outcome : Uuid → Outcome → Db → Db
set_outcome id o db = record db {
  attempts = update_where (λ a. a.id == id) (with_outcome o) db.attempts;
}

unfoldable pub update_attempt : Host → Uuid → Outcome → Io (Result (Unit {0}))
update_attempt host id o = exec host λ _ db. ok (tt, set_outcome id o db)

abbrev pub is_failed : AttemptStatus → Bool
is_failed failed = true
is_failed _ = false

-- status = 'failed' AND next_retry_at IS NOT NULL AND next_retry_at <= now()
abbrev pub is_due : Time → DeliveryAttempt → Bool
is_due now a = is_failed a.status && elim a.next_retry_at [ none ↦ false | some t ↦ leb t now ]

abbrev pub retry_key : DeliveryAttempt → Time
retry_key a = elim a.next_retry_at [ none ↦ 0 | some t ↦ t ]

unfoldable pub list_retryable_attempts : Host → ℕ → Io (Result (List DeliveryAttempt))
list_retryable_attempts host limit = query host λ n db. ok (
    take limit (
      order_by (λ a b. leb (retry_key a) (retry_key b)) (select (is_due (host.now n)) db.attempts)))

unfoldable pub attempts_of : Uuid → Db → List DeliveryAttempt
attempts_of delivery_id db =
    order_by (λ a b. leb a.created_at b.created_at)
      (select (λ a. a.delivery_id == delivery_id) db.attempts)

unfoldable pub list_attempts_by_delivery : Host → Uuid → Io (Result (List DeliveryAttempt))
unfolding attempts_of
list_attempts_by_delivery host delivery_id = query host λ _ db. ok (attempts_of delivery_id db)

-- COALESCE(MAX(attempt_number), 0)
abbrev pub max_number : List DeliveryAttempt → ℕ
max_number [] = 0
max_number (a ∷ rest) = max a.attempt_number (max_number rest)

unfoldable pub get_max_attempt_number : Host → Uuid → Uuid → Io (Result ℕ)
get_max_attempt_number host delivery_id action_id = query host λ _ db. ok (
    max_number (select (λ a. a.delivery_id == delivery_id && a.action_id == action_id) db.attempts))
