-- ===== src/Handler/Actions/Config.antt =====
-- Actions of the types that need a configuration, which the request has no field for.
use nitrohook.Prelude.{ℕ, String, ◌≡◌, refl, none, some, inl, inr}
use nitrohook.Model.{Source, Action}
use nitrohook.Io.{World, Host, pure, call, scan}
use nitrohook.Io.Reliable.{tick}
use nitrohook.Io.Outcomes.{query-cases}
use nitrohook.Script.{Vm, returned}
use nitrohook.Dispatch
use nitrohook.Dispatch.{Registry, Dispatcher}
use nitrohook.Prelude.{first, same}
use nitrohook.Store.Sources.{get_by_slug}
use nitrohook.Handler.Actions.{
  CreateActionRequest, tmp_action, type_of, after_check, create_with, create_in, create,
}

-- A dispatcher that takes no action without a configuration.
abbrev pub NeedsConfig : Dispatcher → Type 0
NeedsConfig d =
    (n : ℕ) (a : Action) → a.config ≡ none → (e : String) × (d.validate n a ≡ returned (some e))

module _ (host : Host) (vm : Vm) (registry : Registry) where
  create_in-db :
      (req : CreateActionRequest) (d : Dispatcher) (src : Source) (w : World)
      → Dispatch.get registry (type_of req) ≡ some d
      → NeedsConfig d
      → (create_in host vm registry (some req) src w).1.db ≡ w.db
  unfolding create_in create_with after_check call pure
  create_in-db req d src w known needs =
      let (e, p) = needs w.calls (tmp_action req) refl in rw (known, p) refl

  -- Whichever calls fail, a request to create an action of a type whose dispatcher takes none
  -- without a configuration changes no table.
  pub create-NeedsConfig :
      (slug : String) (req : CreateActionRequest) (d : Dispatcher) (w : World)
      → Dispatch.get registry (type_of req) ≡ some d
      → NeedsConfig d
      → (create host vm registry slug (some req) w).1.db ≡ w.db
  unfolding create get_by_slug pure
  create-NeedsConfig slug req d w known needs =
      elim (query-cases host (λ _ db. scan (first (λ s. same s.slug slug) db.sources)) w) [
        | inl (e, p) ↦ rw p refl
        | inr (src, h, p) ↦ rw p (create_in-db req d src (tick w) known needs)
      ]
