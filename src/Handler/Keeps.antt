-- ===== src/Handler/Keeps.antt =====
-- The handlers of the API keep what the writes of the stores keep.
use nitrohook.Prelude.{String, same, Option, none, some}
use nitrohook.Model.{Uuid, Source, Delivery}
use nitrohook.Io.{Db, Host, Result, ok, err, Io, pure, call}
use nitrohook.Io.Keeps.{
  Keeps, Keeps-pure, Keeps-if, Keeps-bind, Keeps-call, Keeps-xadd, keeps_rules,
}
use nitrohook.Script.{
  Vm, ScriptError, Ended, returned, raised, interrupted, panicked, panicked_interrupted, validate,
  validate_action_transform,
}
use nitrohook.Dispatch
use nitrohook.Dispatch.{Registry, Dispatcher}
use nitrohook.Store.Keeping.{ClientKeeps}
use nitrohook.Store.Sources.{get_by_slug}
use nitrohook.Handler.Ingest
use nitrohook.Handler.Ingest.{
  Json, or_answer, publish_to_stream, new_key, idempotency_key, hand_on, store_delivery, read_body,
  ingest,
}
use nitrohook.Handler.Sources
use nitrohook.Handler.Sources.{
  Texts, CreateSourceRequest, UpdateSourceRequest, validate_body, create_row, create_as,
}
use nitrohook.Handler.Actions
use nitrohook.Handler.Actions.{
  CreateActionRequest, UpdateActionRequest, after_check, check_transform, transform_error,
  create_with, create_in, update_row, update_by,
}

module _ {host : Host} {Q : Db → Type 0} (c : ClientKeeps host Q) where
  or_answer-Keeps :
      {A : Type 0} (r : Result A) (x : Ingest.Response) (k : A → Io Ingest.Response)
      → ((a : A) → Keeps Q (k a))
      → Keeps Q (or_answer r x k)
  or_answer-Keeps (ok a) x k h = h a
  or_answer-Keeps (err e) x k h = Keeps-pure x

  module _ (json : Json) where
    publish-Keeps : (id : Uuid) → Keeps Q (publish_to_stream host json id)
    unfolding publish_to_stream
    publish-Keeps id = Keeps-xadd host _

    hand_on-Keeps : (s : Source) (d : Delivery) → Keeps Q (hand_on host json s d)
    unfolding hand_on
    hand_on-Keeps s d = search (keeps_rules, publish-Keeps, c.status)

    idempotency_key-Keeps : (r : Ingest.Request) → Keeps Q (idempotency_key host json r)
    unfolding idempotency_key new_key
    idempotency_key-Keeps r = search (keeps_rules)

    store_delivery-Keeps :
        (r : Ingest.Request) (s : Source) (body : String)
        → Keeps Q (store_delivery host json r s body)
    unfolding store_delivery
    store_delivery-Keeps r s body =
        search
          (keeps_rules, or_answer-Keeps, idempotency_key-Keeps, hand_on-Keeps, c.delivery_created)
          depth 12

    read_body-Keeps :
        (r : Ingest.Request) (s : Source) (body : Option String)
        → Keeps Q (read_body host json r s body)
    unfolding read_body
    read_body-Keeps r s none = Keeps-pure _
    read_body-Keeps r s (some body) = search (keeps_rules, store_delivery-Keeps)

    pub ingest-Keeps : (r : Ingest.Request) → Keeps Q (ingest host json r)
    unfolding ingest get_by_slug
    ingest-Keeps r = search (keeps_rules, or_answer-Keeps, read_body-Keeps) depth 10

  module _ (vm : Vm) (t : Texts) where
    checked-Keeps :
        (o : Ended (Option ScriptError)) (k : Io Sources.Response)
        → Keeps Q k
        → Keeps Q (Sources.checked host vm t o k)
    unfolding Sources.checked
    checked-Keeps (returned none) k h = h
    checked-Keeps (returned (some e)) k h = Keeps-pure _
    checked-Keeps (raised e) k h = Keeps-pure _
    checked-Keeps (interrupted e) k h = Keeps-pure _
    checked-Keeps (panicked e) k h = Keeps-pure _
    checked-Keeps panicked_interrupted k h = Keeps-pure _

    validate_body-Keeps :
        (body : Option String) (k : Io Sources.Response)
        → Keeps Q k
        → Keeps Q (validate_body host vm t body k)
    unfolding validate_body
    validate_body-Keeps none k h = h
    validate_body-Keeps (some body) k h =
        Keeps-if (same body "") k _ h
          (Keeps-bind call _ Keeps-call λ n. checked-Keeps (validate vm n body) k h)

    create_row-Keeps :
        (name slug mode : String) (body : Option String)
        → Keeps Q (create_row host vm t name slug mode body)
    unfolding create_row
    create_row-Keeps name slug mode body = search (keeps_rules, c.source_created)

    create_as-Keeps :
        (req : CreateSourceRequest) (slug mode : String)
        → Keeps Q (create_as host vm t req slug mode)
    unfolding create_as
    create_as-Keeps req slug mode =
        search (keeps_rules, validate_body-Keeps, create_row-Keeps) depth 10

    pub create_source-Keeps :
        (req : Option CreateSourceRequest) → Keeps Q (Sources.create host vm t req)
    unfolding Sources.create
    create_source-Keeps none = Keeps-pure _
    create_source-Keeps (some req) = search (keeps_rules, create_as-Keeps)

    pub update_source-Keeps :
        (slug : String) (req : Option UpdateSourceRequest)
        → Keeps Q (Sources.update host vm t slug req)
    unfolding Sources.update
    update_source-Keeps slug none = Keeps-pure _
    update_source-Keeps slug (some req) =
        search (keeps_rules, validate_body-Keeps, c.source_updated) depth 10

    pub delete_source-Keeps : (slug : String) → Keeps Q (Sources.delete host vm t slug)
    unfolding Sources.delete
    delete_source-Keeps slug = search (keeps_rules, c.source_deleted)

  after_check-Keeps :
      (o : Ended (Option String)) (k : Io Actions.Response) → Keeps Q k → Keeps Q (after_check o k)
  unfolding after_check
  after_check-Keeps (returned none) k h = h
  after_check-Keeps (returned (some e)) k h = Keeps-pure _
  after_check-Keeps (raised e) k h = Keeps-pure _
  after_check-Keeps (interrupted e) k h = Keeps-pure _
  after_check-Keeps (panicked e) k h = Keeps-pure _
  after_check-Keeps panicked_interrupted k h = Keeps-pure _

  module _ (vm : Vm) (registry : Registry) where
    check_transform-Keeps :
        (script : Option String) (k : Io Actions.Response)
        → Keeps Q k
        → Keeps Q (check_transform host vm registry script k)
    unfolding check_transform
    check_transform-Keeps none k h = h
    check_transform-Keeps (some body) k h = Keeps-if (same body "") k _ h (
        Keeps-bind call _ Keeps-call λ n.
          after_check-Keeps (transform_error host vm registry (validate_action_transform vm n body))
            k h)

    create_action_row-Keeps :
        (s : Source) (req : CreateActionRequest)
        → Keeps Q (Actions.create_row host vm registry s req)
    unfolding Actions.create_row
    create_action_row-Keeps s req = search (keeps_rules, c.action_created)

    create_with-Keeps :
        (d : Option Dispatcher) (s : Source) (req : CreateActionRequest)
        → Keeps Q (create_with host vm registry d s req)
    unfolding create_with
    create_with-Keeps none s req = Keeps-pure _
    create_with-Keeps (some d) s req =
        search (keeps_rules, after_check-Keeps, check_transform-Keeps, create_action_row-Keeps)
          depth 10

    create_in-Keeps :
        (req : Option CreateActionRequest) (s : Source) → Keeps Q (create_in host vm registry req s)
    unfolding create_in
    create_in-Keeps none s = Keeps-pure _
    create_in-Keeps (some req) s =
        create_with-Keeps (Dispatch.get registry (Actions.type_of req)) s req

    pub or_not_found-Keeps :
        {A : Type 0} (r : Result A) (k : A → Io Actions.Response)
        → ((a : A) → Keeps Q (k a))
        → Keeps Q (Actions.or_not_found host vm registry r k)
    or_not_found-Keeps (ok a) k h = h a
    or_not_found-Keeps (err e) k h = Keeps-pure _

    pub create_action-Keeps :
        (slug : String) (req : Option CreateActionRequest)
        → Keeps Q (Actions.create host vm registry slug req)
    unfolding Actions.create get_by_slug
    create_action-Keeps slug req =
        search (keeps_rules, or_not_found-Keeps, create_in-Keeps) depth 10

    update_row-Keeps :
        (id : Uuid) (req : UpdateActionRequest) → Keeps Q (update_row host vm registry id req)
    unfolding update_row
    update_row-Keeps id req = search (keeps_rules, c.action_updated)

    update_by-Keeps :
        (id : Uuid) (req : Option UpdateActionRequest) → Keeps Q (update_by host vm registry id req)
    unfolding update_by
    update_by-Keeps id none = Keeps-pure _
    update_by-Keeps id (some req) = check_transform-Keeps _ _ (update_row-Keeps id req)

    -- A handler that starts by reading an id from the path.
    pub by_id-Keeps :
        (o : Option Uuid) (k : Uuid → Io Actions.Response)
        → ((id : Uuid) → Keeps Q (k id))
        → Keeps Q (elim o [ none ↦ pure (Actions.text 400 "invalid action id") | some id ↦ k id ])
    by_id-Keeps none k h = Keeps-pure _
    by_id-Keeps (some id) k h = h id

    pub update_action-Keeps :
        (path_id : String) (req : Option UpdateActionRequest)
        → Keeps Q (Actions.update host vm registry path_id req)
    unfolding Actions.update
    update_action-Keeps path_id req =
        by_id-Keeps (host.uuid_parse path_id) (λ id. update_by host vm registry id req)
          (λ id. update_by-Keeps id req)

    pub delete_action-Keeps : (path_id : String) → Keeps Q (Actions.delete host vm registry path_id)
    unfolding Actions.delete
    delete_action-Keeps path_id =
        by_id-Keeps (host.uuid_parse path_id) _ (λ id. search (keeps_rules, c.action_deleted))
