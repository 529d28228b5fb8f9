-- ===== src/Web/Actions/Keeping.antt =====
-- The forms of the actions keep what the writes of the stores keep.
use Prim.Native.String.{◌++◌}
use nitrohook.Prelude.{String, Option, none, some}
use nitrohook.Model.{Uuid, Source, Action, ActionType}
use nitrohook.Io.{Db, Host, Result, ok, err, Io, call}
use nitrohook.Io.Keeps.{
  Keeps, Keeps-pure, Keeps-if, Keeps-bind, Keeps-query, Keeps-call, keeps_rules,
}
use nitrohook.Script.{Vm, validate_action_transform}
use nitrohook.Store.Keeping.{ClientKeeps}
use nitrohook.Store.Actions
use nitrohook.Web.Pages.{Request, Forms, Response, field, is_blank}
use nitrohook.Web.Scripts.{validated}
use nitrohook.Web.Sources.{with_source}
use nitrohook.Web.Keeps.{or_text-Keeps, with_source-Keeps}
use nitrohook.Web.Columns.{Columns, Change, change, refused}
use nitrohook.Web.Actions.{
  actions_card, edit_card, transform_verdict, with_transform, create_row, create_script,
  create_typed, create_action, updated, apply_change, change_typed, or_bad_id, with_id,
  update_action, toggle_action, delete_action,
}

module _ {host : Host} {Q : Db → Type 0} (c : ClientKeeps host Q) (vm : Vm) (f : Forms)
    (r : Request) where
  actions_card-Keeps :
      (s : Source) (success : String) → Keeps Q (actions_card host vm f r s success)
  unfolding actions_card Actions.list
  actions_card-Keeps s success = search (keeps_rules)

  edit_card-Keeps : (s : Source) (id : Uuid) (e : String) → Keeps Q (edit_card host vm f r s id e)
  unfolding edit_card Actions.list Actions.get_by_id
  edit_card-Keeps s id e = search (keeps_rules) depth 10

  transform_verdict-Keeps :
      (script : String) (v : Option (Option String)) (valid : Option String → Io Response)
      (invalid : String → Io Response)
      → ((o : Option String) → Keeps Q (valid o))
      → ((e : String) → Keeps Q (invalid e))
      → Keeps Q (transform_verdict host vm f r script v valid invalid)
  unfolding transform_verdict
  transform_verdict-Keeps script none valid invalid kv ki = Keeps-pure _
  transform_verdict-Keeps script (some none) valid invalid kv ki = kv (some script)
  transform_verdict-Keeps script (some (some e)) valid invalid kv ki = ki e

  with_transform-Keeps :
      (valid : Option String → Io Response) (invalid : String → Io Response)
      → ((o : Option String) → Keeps Q (valid o))
      → ((e : String) → Keeps Q (invalid e))
      → Keeps Q (with_transform host vm f r valid invalid)
  unfolding with_transform
  with_transform-Keeps valid invalid kv ki =
      let script = field f r "transform_script" in
      Keeps-if (is_blank script) (valid none) _ (kv none) (
        Keeps-bind call _ Keeps-call λ n.
          transform_verdict-Keeps script (validated vm (validate_action_transform vm n script))
            valid invalid kv ki)

  create_row-Keeps :
      (s : Source) (type : ActionType) (transform : Option String) (k : Columns)
      → Keeps Q (create_row host vm f r s type transform k)
  unfolding create_row
  create_row-Keeps s type transform k = search (keeps_rules, actions_card-Keeps, c.action_created)

  create_script-Keeps :
      (s : Source) (type : ActionType) (transform : Option String) (k : Option Columns)
      → Keeps Q (create_script host vm f r s type transform k)
  unfolding create_script
  create_script-Keeps s type transform none = Keeps-pure _
  create_script-Keeps s type transform (some k) = create_row-Keeps s type transform k

  create_typed-Keeps :
      (s : Source) (type : ActionType) (transform : Option String)
      → Keeps Q (create_typed host vm f r s type transform)
  unfolding create_typed
  create_typed-Keeps s type transform =
      search (keeps_rules, create_row-Keeps, create_script-Keeps) depth 12

  pub create_action-Keeps : (slug : String) → Keeps Q (create_action host vm f r slug)
  unfolding create_action
  create_action-Keeps slug =
      with_source-Keeps c slug _
        λ s. with_transform-Keeps _ _ (λ o. create_typed-Keeps s _ o) (λ e. actions_card-Keeps s "")

  updated-Keeps :
      (s : Source) (id : Uuid) (u : Result Action) → Keeps Q (updated host vm f r s id u)
  unfolding updated
  updated-Keeps s id (ok a) = actions_card-Keeps s _
  updated-Keeps s id (err e) = edit_card-Keeps s id _

  apply_change-Keeps :
      (s : Source) (id : Uuid) (transform : Option String) (k : Option Change)
      → Keeps Q (apply_change host vm f r s id transform k)
  unfolding apply_change
  apply_change-Keeps s id transform none = Keeps-pure _
  apply_change-Keeps s id transform (some (refused e)) = edit_card-Keeps s id e
  apply_change-Keeps s id transform (some (change k)) =
      search (keeps_rules, updated-Keeps, c.action_updated)

  change_typed-Keeps :
      (s : Source) (a : Action) (id : Uuid) (transform : Option String)
      → Keeps Q (change_typed host vm f r s a id transform)
  unfolding change_typed
  change_typed-Keeps s a id transform = search (keeps_rules, apply_change-Keeps) depth 12

  or_bad_id-Keeps :
      (o : Option Uuid) (k : Uuid → Io Response)
      → ((id : Uuid) → Keeps Q (k id))
      → Keeps Q (or_bad_id host vm f r o k)
  unfolding or_bad_id
  or_bad_id-Keeps none k h = Keeps-pure _
  or_bad_id-Keeps (some id) k h = h id

  pub with_id-Keeps :
      (slug path_id : String) (k : Uuid → Source → Io Response)
      → ((id : Uuid) (s : Source) → Keeps Q (k id s))
      → Keeps Q (with_id host vm f r slug path_id k)
  unfolding with_id
  with_id-Keeps slug path_id k h =
      or_bad_id-Keeps (host.uuid_parse path_id) (λ id. with_source host slug (k id))
        λ id. with_source-Keeps c slug (k id) (h id)

  pub update_action-Keeps :
      (slug path_id : String) → Keeps Q (update_action host vm f r slug path_id)
  unfolding update_action Actions.get_by_id
  update_action-Keeps slug path_id = with_id-Keeps slug path_id _ λ id s.
      Keeps-bind (Actions.get_by_id host id) _ (Keeps-query host _) λ a.
        or_text-Keeps c 404 "Action not found" a _ λ action.
          with_transform-Keeps _ _ (change_typed-Keeps s action id)
            (λ e. edit_card-Keeps s id ("Invalid transform script: " ++ e))

  pub toggle_action-Keeps :
      (slug path_id : String) → Keeps Q (toggle_action host vm f r slug path_id)
  unfolding toggle_action
  toggle_action-Keeps slug path_id = with_id-Keeps slug path_id _ λ id s.
      Keeps-bind (Actions.update host id _) _ (c.action_updated id _) (λ u. actions_card-Keeps s "")

  pub delete_action-Keeps :
      (slug path_id : String) → Keeps Q (delete_action host vm f r slug path_id)
  unfolding delete_action
  delete_action-Keeps slug path_id = with_id-Keeps slug path_id _ λ id s.
      Keeps-bind (Actions.delete host id) _ (c.action_deleted id) (λ u. actions_card-Keeps s "")
