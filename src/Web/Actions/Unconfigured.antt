-- ===== src/Web/Actions/Unconfigured.antt =====
-- CreateAction of web/action.go without the fields that the type of the action needs.
use nitrohook.Prelude.{
  suc, String, ◌≡◌, ◌∙◌, refl, Bool, true, false, ◌⊎◌, inl, inr, none, some, List, [], ◌∷◌, any,
  first, same, ◌==◌, arith, ==_refl,
}
use nitrohook.Model.{
  Source, Action, ActionType, action_type_webhook, action_type_javascript, action_type_slack,
  action_type_smtp, action_type_twilio,
}
use nitrohook.Io.{Db, World, Host, ok, pure, scan, settle, exec, call, unless_fault}
use nitrohook.Io.Reliable.{IsReliable, tick, query-eq}
use nitrohook.Script.{Vm}
use nitrohook.Dispatch.Net.{Net, failure, parse_config}
use nitrohook.Dispatch.Slack
use nitrohook.Dispatch.Smtp
use nitrohook.Dispatch.Twilio
use nitrohook.Store.Sources
use nitrohook.Store.Actions
use nitrohook.Store.Actions.{ActionCreateParams, new_action, passes_checks, add_action}
use nitrohook.Web.Pages.{Request, Forms, field, is_blank}
use nitrohook.Web.Sources.{with_source}
use nitrohook.Web.Columns.{no_columns, create_params}
use nitrohook.Web.Actions.{create_row, create_typed, create_action, with_transform}
use nitrohook.Web.Actions.Config.{entries, build_action_config}
use nitrohook.Web.Actions.Scope.{actions_card-db}

-- The types whose actions need a configuration.
abbrev pub IsConfigured : ActionType → Type 0
IsConfigured t = (t ≡ action_type_slack) ⊎ (t ≡ action_type_smtp) ⊎ (t ≡ action_type_twilio)

-- The row of an action without a configuration.
abbrev pub bare_action : Host → World → Source → ActionType → Action
bare_action host w s type =
    new_action (host.gen_uuid (suc w.calls)) (host.now (suc w.calls))
      (create_params s.id type none no_columns) none

bare_action-passes :
    (host : Host) (w : World) (s : Source) (type : ActionType)
    → IsConfigured type
    → passes_checks (bare_action host w s type) ≡ true
unfolding passes_checks
bare_action-passes host w s type (inl e) = rw e refl
bare_action-passes host w s type (inr (inl e)) = rw e refl
bare_action-passes host w s type (inr (inr e)) = rw e refl

any-first :
    (p : Source → Bool) (l : List Source) (s : Source)
    → first p l ≡ some s
    → any (λ o. o.id == s.id) l ≡ true
any-first p [] s h = cc
any-first p (x ∷ xs) s h = ground (arith, ==_refl s.id, any-first p xs s)

add_action-fresh :
    (a : Action) (db : Db)
    → passes_checks a ≡ true
    → any (λ o. o.id == a.id) db.actions ≡ false
    → any (λ s. s.id == a.source_id) db.sources ≡ true
    → add_action a db ≡ ok (a, record db { actions = a ∷ db.actions })
unfolding add_action
add_action-fresh a db c f s = rw (c, f, s) refl

build_none :
    (f : Forms) (r : Request) (type : ActionType)
    → entries f r type ≡ none
    → build_action_config f r type ≡ some none
unfolding build_action_config
build_none f r type h = rw (build_action_config, h) refl

other_types :
    (type : ActionType)
    → IsConfigured type
    → (same type action_type_webhook ≡ false)
      × (same type action_type_javascript ≡ false)
      × (same type "" ≡ false)
other_types type (inl e) = rw e (refl, refl, refl)
other_types type (inr (inl e)) = rw e (refl, refl, refl)
other_types type (inr (inr e)) = rw e (refl, refl, refl)

module _ (host : Host) (vm : Vm) (f : Forms) (r : Request) (s : Source) (w : World)
    (reliable : IsReliable host) where
  create_row-bare :
      (type : ActionType)
      → add_action (bare_action host w s type) w.db
        ≡ ok (
          bare_action host w s type,
          record w.db { actions = bare_action host w s type ∷ w.db.actions },
        )
      → (create_row host vm f r s type none no_columns (tick w)).1.db
        ≡ record w.db { actions = bare_action host w s type ∷ w.db.actions }
  unfolding create_row Actions.create exec call unless_fault settle
  create_row-bare type added =
      actions_card-db host vm f r s "" _ ∙ rw (reliable (suc w.calls), added) refl

  create_typed-bare :
      (type : ActionType)
      → IsConfigured type
      → entries f r type ≡ none
      → create_typed host vm f r s type none (tick w)
        ≡ create_row host vm f r s type none no_columns (tick w)
  unfolding create_typed
  create_typed-bare type t h =
      let (webhook, javascript, _) = other_types type t in
      rw (webhook, javascript, build_none f r type h) refl

  -- If no call fails, CreateAction without the fields that a Slack, SMTP or Twilio action needs
  -- creates an active action without a configuration, and each dispatch of it fails at once.
  pub create_action-bare :
      (net : Net) (slug : String) (type : ActionType)
      → IsConfigured type
      → r.form "type" ≡ type
      → is_blank (field f r "transform_script") ≡ true
      → entries f r type ≡ none
      → first (λ o. same o.slug slug) w.db.sources ≡ some s
      → any (λ o. o.id == host.gen_uuid (suc w.calls)) w.db.actions ≡ false
      → let row = bare_action host w s type in
        ((create_action host vm f r slug w).1.db ≡ record w.db { actions = row ∷ w.db.actions })
        × ((id payload headers : String) (v : World)
            → (Slack.dispatch net row id payload headers v ≡ (failure "config is required", v))
              × (Smtp.dispatch net row id payload headers v ≡ (failure "config is required", v))
              × (Twilio.dispatch net row id payload headers v ≡ (failure "config is required", v)))
  unfolding create_action with_source Sources.get_by_slug with_transform Slack.dispatch
      Smtp.dispatch Twilio.dispatch parse_config pure
  create_action-bare net slug type t of_type plain missing named fresh =
      let row : Action = bare_action host w s type in
      (
        rw
            (
              query-eq host reliable (λ _ db. scan (first (λ o. same o.slug slug) db.sources)) w,
              named,
              plain,
              of_type,
              (other_types type t).2,
              create_typed-bare type t missing,
            )
            (create_row-bare type (
              add_action-fresh row w.db (bare_action-passes host w s type t) fresh
                (any-first _ w.db.sources s named))),
        (λ id payload headers v. (refl, refl, refl)),
      )
