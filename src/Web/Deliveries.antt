-- ===== src/Web/Deliveries.antt =====
-- web/delivery.go: the pages of the deliveries.
use nitrohook.Prelude.{String, Option, none, some}
use nitrohook.Model.{Uuid}
use nitrohook.Io.{Host, Io, ◌>>=◌, pure}
use nitrohook.Store.Sources
use nitrohook.Store.Deliveries
use nitrohook.Web.Pages.{Response, text, rendered, deliveries_data, delivery_data, given}
use nitrohook.Web.Sources.{or_text}

module _ (host : Host) where
  -- `source_filter` is the query's parameter "source".
  unfoldable pub deliveries : String → Io Response
  deliveries source_filter = do
    l ← Sources.list host
    or_text 500 "Internal server error" l λ sources. do
      r ← Deliveries.list host (given source_filter) 50
      or_text 500 "Internal server error" r λ ds. pure (
          rendered "deliveries" none (
            deliveries_data (record {
              nav = "deliveries";
              sources = sources;
              deliveries = ds;
              source_filter = source_filter;
            })))

  unfoldable pub delivery_of : Option Uuid → Io Response
  delivery_of none = pure (text 400 "Invalid delivery ID")
  delivery_of (some id) = do
    d ← Deliveries.get_by_id host id
    or_text 404 "Delivery not found" d λ delivery. do
      l ← Deliveries.list_attempts_by_delivery host id
      or_text 500 "Internal server error" l λ attempts. pure (
          rendered "delivery" none (
            delivery_data
              (record { nav = "deliveries"; delivery = delivery; attempts = attempts })))

  unfoldable pub delivery_detail : String → Io Response
  unfolding delivery_of
  delivery_detail id = delivery_of (host.uuid_parse id)
