-- ===== src/Web/Actions/Scope.antt =====
-- web/action.go: the action of a request need not be one of the source in its path.
use nitrohook.Prelude.{
  suc, String, ◌≡◌, ◌∙◌, refl, some, update_where, select, not, first, same, ◌==◌,
}
use nitrohook.Model.{Uuid, Source, Action}
use nitrohook.Io.{World, Host, scan, settle, exec, call, unless_fault}
use nitrohook.Io.Keeps.{Keeps, keeps_rules}
use nitrohook.Io.Reliable.{IsReliable, query-eq}
use nitrohook.Script.{Vm}
use nitrohook.Store.Sources
use nitrohook.Store.Actions
use nitrohook.Store.Actions.{remove_action}
use nitrohook.Store.Inversion.{change_action-found}
use nitrohook.Web.Pages.{Request, Forms}
use nitrohook.Web.Sources.{with_source}
use nitrohook.Web.Actions.{or_bad_id, with_id, actions_card, toggle_action, delete_action}

module _ (host : Host) (vm : Vm) (f : Forms) (r : Request) where
  pub actions_card-db :
      (s : Source) (success : String) (w : World)
      → (actions_card host vm f r s success w).1.db ≡ w.db
  unfolding actions_card Actions.list
  actions_card-db s success w =
      let k : Keeps (λ db. db ≡ w.db) (actions_card host vm f r s success) = search (keeps_rules) in
      k.at w refl

  -- If no call fails, ToggleAction makes the action of the path active or not, as the form says,
  -- and DeleteAction removes it with its attempts, for any source of the path: the action need not
  -- be one of that source.
  pub toggle_and_delete :
      (slug path_id : String) (id : Uuid) (s : Source) (a : Action) (w : World)
      → IsReliable host
      → host.uuid_parse path_id ≡ some id
      → first (λ o. same o.slug slug) w.db.sources ≡ some s
      → first (λ o. o.id == id) w.db.actions ≡ some a
      → ((toggle_action host vm f r slug path_id w).1.db ≡ record w.db {
        actions =
            update_where
              (λ o. o.id == id)
              (λ o. record o {
                is_active = same (r.form "is_active") "on";
                updated_at = host.now (suc w.calls);
              })
              w.db.actions;
      })
        × ((delete_action host vm f r slug path_id w).1.db ≡ record w.db {
          actions = select (λ o. not (o.id == id)) w.db.actions;
          attempts = select (λ t. not (t.action_id == id)) w.db.attempts;
        })
  unfolding toggle_action delete_action with_id or_bad_id with_source Sources.get_by_slug
      Actions.update Actions.delete remove_action settle exec call unless_fault
  toggle_and_delete slug path_id id s a w reliable parsed named found = (
    rw
        (
          parsed,
          query-eq host reliable (λ _ db. scan (first (λ o. same o.slug slug) db.sources)) w,
          named,
        )
        (actions_card-db s "" _
          ∙ rw (reliable (suc w.calls), change_action-found id _ a w.db found) refl),
    rw
        (
          parsed,
          query-eq host reliable (λ _ db. scan (first (λ o. same o.slug slug) db.sources)) w,
          named,
        )
        (actions_card-db s "" _ ∙ rw (reliable (suc w.calls)) refl),
  )
