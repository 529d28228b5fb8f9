-- ===== src/Handler/Deliveries.antt =====
-- internal/handler/delivery.go: the deliveries over HTTP.
pub mod Limit
use nitrohook.Prelude.{
  ℕ, String, Bool, true, false, ◌&&◌, Option, none, some, List, ltb, leb, same, if◌then◌else◌,
}
use nitrohook.Model.{Uuid, Delivery, DeliveryAttempt}
use nitrohook.Io.{Result, ok, err, Host, Io, ◌>>=◌, pure}
use nitrohook.Dispatch.Net.{ℤ, pos, negsuc}
use nitrohook.Store.Deliveries

pub data Response : Type 0 where
  text : ℕ → String → Response
  deliveries : List Delivery → Response
  delivery : Delivery → Response
  attempts : List DeliveryAttempt → Response

-- A query's parameter, which is empty where it is not given.
abbrev pub source_slug : String → Option String
source_slug s = if same s "" then none else some s

abbrev pub limit_or : Option ℤ → ℕ
limit_or none = 50
limit_or (some (negsuc n)) = 50
limit_or (some (pos n)) = if ltb 0 n && leb n 200 then n else 50

-- `atoi` is strconv.Atoi.
unfoldable pub limit_of : (String → Option ℤ) → String → ℕ
limit_of atoi l = if same l "" then 50 else limit_or (atoi l)

module _ (host : Host) where
  unfoldable pub listed : Result (List Delivery) → Response
  listed (err e) = text 500 "failed to list deliveries"
  listed (ok ds) = deliveries ds

  -- By the parameters "source" and "limit".
  unfoldable pub list : (String → Option ℤ) → String → String → Io Response
  list atoi slug limit = do
    r ← Deliveries.list host (source_slug slug) (limit_of atoi limit)
    pure (listed r)

  unfoldable pub get_by : Option Uuid → Io Response
  get_by none = pure (text 400 "invalid delivery id")
  get_by (some id) = do
    r ← Deliveries.get_by_id host id
    pure (elim r [ err e ↦ text 404 "delivery not found" | ok d ↦ delivery d ])

  unfoldable pub get : String → Io Response
  get id = get_by (host.uuid_parse id)

  unfoldable pub list_found : Uuid → Result Delivery → Io Response
  list_found id (err e) = pure (text 404 "delivery not found")
  list_found id (ok _) = do
    r ← Deliveries.list_attempts_by_delivery host id
    pure (elim r [ err e ↦ text 500 "failed to list attempts" | ok l ↦ attempts l ])

  unfoldable pub list_by : Option Uuid → Io Response
  list_by none = pure (text 400 "invalid delivery id")
  list_by (some id) = do r ← Deliveries.get_by_id host id; list_found id r

  unfoldable pub list_attempts : String → Io Response
  list_attempts id = list_by (host.uuid_parse id)
