-- ===== src/Web/Forward/Keeping.antt =====
-- The forwarding of deliveries keeps what the writes of the stores keep.
use nitrohook.Prelude.{String, Option, none, some, List, [], ◌∷◌}
use nitrohook.Model.{Uuid, Source, Delivery}
use nitrohook.Io.{Db, Host, Result, ok, err}
use nitrohook.Io.Keeps.{Keeps, Keeps-pure, Keeps-bind, Keeps-xadd, keeps_rules}
use nitrohook.Store.Keeping.{ClientKeeps}
use nitrohook.Store.Deliveries
use nitrohook.Store.Sources
use nitrohook.Web.Forward.{
  forward_delivery_to_stream, after_publish, after_status, forward_found, forward_of, forward_id,
  forward_from, forward_delivery, forward_one, forward_each, forward_listed, forward_slug,
  forward_all_recorded,
}

module _ {host : Host} {Q : Db → Type 0} (c : ClientKeeps host Q) where
  publish-Keeps : (id : Uuid) → Keeps Q (forward_delivery_to_stream host id)
  unfolding forward_delivery_to_stream
  publish-Keeps id = Keeps-xadd host _

  after_publish-Keeps : (id : Uuid) (p : Result (Unit {0})) → Keeps Q (after_publish host id p)
  unfolding after_publish
  after_publish-Keeps id (ok x) = Keeps-pure _
  after_publish-Keeps id (err e) = search (keeps_rules, c.status)

  after_status-Keeps : (id : Uuid) (u : Result (Unit {0})) → Keeps Q (after_status host id u)
  unfolding after_status
  after_status-Keeps id (err e) = Keeps-pure _
  after_status-Keeps id (ok x) = search (keeps_rules, publish-Keeps, after_publish-Keeps)

  forward_found-Keeps : (id : Uuid) (d : Delivery) → Keeps Q (forward_found host id d)
  unfolding forward_found
  forward_found-Keeps id d = search (keeps_rules, after_status-Keeps, c.status)

  forward_of-Keeps :
      (s : Source) (id : Uuid) (d : Result Delivery) → Keeps Q (forward_of host s id d)
  unfolding forward_of
  forward_of-Keeps s id (err e) = Keeps-pure _
  forward_of-Keeps s id (ok d) = search (keeps_rules, forward_found-Keeps)

  forward_id-Keeps : (s : Source) (o : Option Uuid) → Keeps Q (forward_id host s o)
  unfolding forward_id Deliveries.get_by_id
  forward_id-Keeps s none = Keeps-pure _
  forward_id-Keeps s (some id) = search (keeps_rules, forward_of-Keeps)

  forward_from-Keeps : (s : Result Source) (id : String) → Keeps Q (forward_from host s id)
  unfolding forward_from
  forward_from-Keeps (err e) id = Keeps-pure _
  forward_from-Keeps (ok s) id = forward_id-Keeps s (host.uuid_parse id)

  pub forward_delivery-Keeps : (slug id : String) → Keeps Q (forward_delivery host slug id)
  unfolding forward_delivery Sources.get_by_slug
  forward_delivery-Keeps slug id = search (keeps_rules, forward_from-Keeps)

  forward_each-Keeps : (l : List Delivery) → Keeps Q (forward_each host l)
  unfolding forward_each forward_one
  forward_each-Keeps [] = Keeps-pure _
  forward_each-Keeps (d ∷ rest) =
      Keeps-bind (forward_one host d) (λ _. forward_each host rest)
        (Keeps-bind (forward_found host d.id d) _ (forward_found-Keeps d.id d) (λ _. Keeps-pure tt))
        (λ _. forward_each-Keeps rest)

  forward_listed-Keeps : (l : Result (List Delivery)) → Keeps Q (forward_listed host l)
  unfolding forward_listed
  forward_listed-Keeps (err e) = Keeps-pure _
  forward_listed-Keeps (ok l) = search (keeps_rules, forward_each-Keeps)

  forward_slug-Keeps : (slug : String) (s : Result Source) → Keeps Q (forward_slug host slug s)
  unfolding forward_slug Deliveries.list
  forward_slug-Keeps slug (err e) = Keeps-pure _
  forward_slug-Keeps slug (ok s) = search (keeps_rules, forward_listed-Keeps)

  pub forward_all_recorded-Keeps : (slug : String) → Keeps Q (forward_all_recorded host slug)
  unfolding forward_all_recorded Sources.get_by_slug
  forward_all_recorded-Keeps slug = search (keeps_rules, forward_slug-Keeps)
