-- ===== src/Store/Keeping/Writes.antt =====
-- A write keeps what the change of the tables behind it keeps, whether it fails or not.
use nitrohook.Prelude.{
  ℕ, String, ◌≡◌, refl, Bool, Option, none, some, first, same, inl, inr, Option-cases,
}
use nitrohook.Model.{Uuid, RawMessage, DeliveryStatus}
use nitrohook.Io.{Db, Result, ok, Host, exec, stored}
use nitrohook.Io.Keeps.{Keeps, Keeps-pure, Keeps-bind, Keeps-exec, Keeps-write, holds_of-ok}
use nitrohook.Store.Deliveries
use nitrohook.Store.Deliveries.{Outcome, set_status, set_texts, set_outcome}
use nitrohook.Store.Actions
use nitrohook.Store.Actions.{ActionCreateParams, ActionUpdateParams, stored?, remove_action}
use nitrohook.Store.Sources
use nitrohook.Store.Sources.{new_source, change_source, remove_source, or_not_found}
use nitrohook.Store.Keeping.{ClientChanges, WorkerChanges, ClientKeeps, AttemptKeeps}

pub stored-ok :
    {B : Type 0} (o : Option RawMessage) (k : RawMessage → Result B) (b : B)
    → stored o k ≡ ok b
    → (t : RawMessage) × (o ≡ some t) × (k t ≡ ok b)
stored-ok none k b h = cc
stored-ok (some t) k b h = (t, refl, h)

stored?-ok :
    {B : Type 0} (host : Host) (o : Option RawMessage) (k : Option RawMessage → Result B) (b : B)
    → stored? host o k ≡ ok b
    → (t : Option RawMessage) × (k t ≡ ok b)
stored?-ok host none k b h = (none, h)
stored?-ok host (some text) k b h = let (t, _, e) = stored-ok (host.jsonb text) _ b h in (some t, e)

module _ (host : Host) {Q : Db → Type 0} where
  module _ (c : ClientChanges Q) where
    source_created :
        (name slug mode : String) (body : Option String)
        → Keeps Q (Sources.create host name slug mode body)
    unfolding Sources.create
    source_created name slug mode body = Keeps-exec host _ λ n db db' s h e.
        c.source_added (new_source (host.gen_uuid n) (host.now n) name slug mode body) s db db' e h

    source_updated :
        (slug : String) (name mode body : Option String) (clear : Bool)
        → Keeps Q (Sources.update host slug name mode body clear)
    unfolding Sources.update
    source_updated slug name mode body clear =
        Keeps-bind (exec host (λ n. change_source (host.now n) slug name mode body clear)) _
          (Keeps-exec host _
            λ n db db' s h e. c.source_changed (host.now n) slug name mode body clear s db db' e h)
          (λ r. Keeps-pure (or_not_found r))

    source_deleted : (slug : String) → Keeps Q (Sources.delete host slug)
    unfolding Sources.delete
    source_deleted slug = Keeps-exec host _ λ n db db' a h e.
        elim (Option-cases (first (λ s. same s.slug slug) db.sources)) [
          | inl p ↦ cc (rw p at e)
          | inr (s, p) ↦
              holds_of-ok Q tt a (remove_source s db) db' (c.source_removed s db h) (rw p at e)
        ]

    action_created : (p : ActionCreateParams) → Keeps Q (Actions.create host p)
    unfolding Actions.create
    action_created p = Keeps-exec host _ λ n db db' a h e.
        let (config, e') = stored?-ok host p.config _ _ e in
        c.action_added (Actions.new_action (host.gen_uuid n) (host.now n) p config) a db db' e' h

    action_updated : (id : Uuid) (p : ActionUpdateParams) → Keeps Q (Actions.update host id p)
    unfolding Actions.update
    action_updated id p = Keeps-exec host _ λ n db db' a h e.
        let (config, e') = stored?-ok host p.config _ _ e in
        c.action_changed id (host.now n) p config a db db' e' h

    action_deleted : (id : Uuid) → Keeps Q (Actions.delete host id)
    unfolding Actions.delete
    action_deleted id =
        Keeps-write host (λ _ db. (tt, remove_action id db)) (λ _ db h. c.action_removed id db h)

    delivery_created :
        (source_id : Uuid) (key : String) (headers payload : RawMessage)
        → Keeps Q (Deliveries.create host source_id key headers payload)
    unfolding Deliveries.create
    delivery_created source_id key headers payload = Keeps-exec host _ λ n db db' d h e.
        let (t, _, e₁) = stored-ok (host.jsonb headers) _ _ e in
        let (s, _, e₂) = stored-ok (host.jsonb payload) _ _ e₁ in
        c.delivery_added (Deliveries.new_delivery (host.gen_uuid n) (host.now n) source_id key t s)
          d db db' e₂ h

    update_status : (id : Uuid) (s : DeliveryStatus) → Keeps Q (Deliveries.update_status host id s)
    unfolding Deliveries.update_status
    update_status id s =
        Keeps-write host (λ _ db. (tt, set_status id s db)) (λ _ db h. c.status id s db h)

    pub client_keeps : ClientKeeps host Q
    client_keeps = record {
      source_created = source_created;
      source_updated = source_updated;
      source_deleted = source_deleted;
      action_created = action_created;
      action_updated = action_updated;
      action_deleted = action_deleted;
      delivery_created = delivery_created;
      status = update_status;
    }

  module _ (status : (id : Uuid) (s : DeliveryStatus) (db : Db) → Q db → Q (set_status id s db))
      (k : WorkerChanges Q) where
    set_transformed :
        (id : Uuid) (p h : RawMessage) → Keeps Q (Deliveries.set_transformed host id p h)
    unfolding Deliveries.set_transformed
    set_transformed id p q = Keeps-exec host _ λ n db db' a h e.
        let (t, _, e₁) = stored-ok (host.jsonb p) _ _ e in
        let (s, _, e₂) = stored-ok (host.jsonb q) _ _ e₁ in
        holds_of-ok Q tt a (set_texts id t s db) db' (k.texts id t s db h) e₂

    create_attempt :
        (delivery_id action_id : Uuid) (n : ℕ)
        → Keeps Q (Deliveries.create_attempt host delivery_id action_id n)
    unfolding Deliveries.create_attempt
    create_attempt delivery_id action_id number = Keeps-exec host _ λ n db db' a h e.
        k.attempt_added
          (Deliveries.new_attempt (host.gen_uuid n) (host.now n) delivery_id action_id number) a db
          db' e h

    update_attempt : (id : Uuid) (o : Outcome) → Keeps Q (Deliveries.update_attempt host id o)
    unfolding Deliveries.update_attempt
    update_attempt id o =
        Keeps-write host (λ _ db. (tt, set_outcome id o db)) (λ _ db h. k.outcome id o db h)

    pub attempt_keeps_of : AttemptKeeps host Q
    attempt_keeps_of = record {
      status = status;
      transformed = set_transformed;
      attempt_created = create_attempt;
      attempt_updated = update_attempt;
    }

  pub attempt_keeps : ClientChanges Q → WorkerChanges Q → AttemptKeeps host Q
  attempt_keeps c k = attempt_keeps_of c.status k
