-- ===== src/Web/Forward.antt =====
-- web/source.go: recorded deliveries are made pending again and published with force.
pub mod Forwarded
pub mod Keeping
use nitrohook.Prelude.{
  ℕ, String, Bool, true, false, not, ◌||◌, Option, none, some, List, [], ◌∷◌, ◌==◌, if◌then◌else◌,
}
use nitrohook.Model.{Uuid, Source, Delivery, DeliveryStatus, pending, recorded}
use nitrohook.Io.{Result, ok, err, Host, Io, ◌>>=◌, ◌>>◌, pure, xadd}
use nitrohook.Store.Deliveries.{get_by_id, update_status, list}
use nitrohook.Web.Pages.{Response, text, refresh}
use nitrohook.Store.Sources.{get_by_slug}

abbrev pub is_recorded : DeliveryStatus → Bool
is_recorded recorded = true
is_recorded _ = false

module _ (host : Host) where
  unfoldable pub forward_delivery_to_stream : Uuid → Io (Result (Unit {0}))
  forward_delivery_to_stream id =
      xadd host (record { delivery_id = some (host.uuid_string id); force = some "1" })

  -- After the status has been written and the message published or not.
  unfoldable pub after_publish : Uuid → Result (Unit {0}) → Io Response
  after_publish id (ok _) = pure refresh
  after_publish id (err e) = do
    update_status host id recorded
    pure (text 500 "Failed to forward delivery")

  unfoldable pub after_status : Uuid → Result (Unit {0}) → Io Response
  unfolding after_publish
  after_status id (err e) = pure (text 500 "Failed to forward delivery")
  after_status id (ok _) = do p ← forward_delivery_to_stream id; after_publish id p

  unfoldable pub forward_found : Uuid → Delivery → Io Response
  unfolding after_status
  forward_found id d =
      if not (is_recorded d.status)
      then pure refresh
      else do u ← update_status host id pending; after_status id u

  unfoldable pub forward_of : Source → Uuid → Result Delivery → Io Response
  unfolding forward_found
  forward_of src id (err e) = pure (text 404 "Delivery not found")
  forward_of src id (ok d) =
      if d.source_id == src.id then forward_found id d else pure (text 404 "Delivery not found")

  unfoldable pub forward_id : Source → Option Uuid → Io Response
  forward_id src none = pure (text 400 "Invalid delivery ID")
  forward_id src (some id) = do d ← get_by_id host id; forward_of src id d

  unfoldable pub forward_from : Result Source → String → Io Response
  unfolding forward_id
  forward_from (err e) id = pure (text 404 "Source not found")
  forward_from (ok src) id = forward_id src (host.uuid_parse id)

  -- By the slug and the id of the path.
  unfoldable pub forward_delivery : String → String → Io Response
  unfolding forward_from
  forward_delivery slug id = do s ← get_by_slug host slug; forward_from s id

  -- One round of the loop: what fails is passed over.
  unfoldable pub forward_one : Delivery → Io (Unit {0})
  unfolding forward_found
  forward_one d = do forward_found d.id d; pure tt

  unfoldable pub forward_each : List Delivery → Io (Unit {0})
  forward_each [] = pure tt
  forward_each (d ∷ rest) = do forward_one d; forward_each rest

  unfoldable pub forward_listed : Result (List Delivery) → Io Response
  forward_listed (err e) = pure (text 500 "Failed to list deliveries")
  forward_listed (ok deliveries) = do forward_each deliveries; pure refresh

  unfoldable pub forward_slug : String → Result Source → Io Response
  forward_slug slug (err e) = pure (text 404 "Source not found")
  forward_slug slug (ok _) = do l ← list host (some slug) 200; forward_listed l

  unfoldable pub forward_all_recorded : String → Io Response
  forward_all_recorded slug = do s ← get_by_slug host slug; forward_slug slug s
