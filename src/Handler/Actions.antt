-- ===== src/Handler/Actions.antt =====
-- internal/handler/action.go: the actions of a source over HTTP.
pub mod Config
use Prim.Native.String.{◌++◌}
use nitrohook.Prelude.{ℕ, String, Bool, false, Option, none, some, List, same, if◌then◌else◌}
use nitrohook.Model.{Uuid, Source, Action, ActionType, action_type_webhook}
use nitrohook.Io.{Result, ok, err, Host, Io, ◌>>=◌, pure, call}
use nitrohook.Script.{
  Vm, ScriptError, Ended, returned, raised, interrupted, panicked, panicked_interrupted,
  validate_action_transform,
}
use nitrohook.Dispatch
use nitrohook.Dispatch.{Registry, Dispatcher}
use nitrohook.Store.Actions
use nitrohook.Store.Actions.{ActionCreateParams, ActionUpdateParams}
use nitrohook.Store.Sources

pub record CreateActionRequest : Type 0 where
  pub type : ActionType
  pub target_url : Option String
  pub signing_secret : Option String
  pub script_body : Option String
  pub transform_script : Option String

pub record UpdateActionRequest : Type 0 where
  pub target_url : Option String
  pub signing_secret : Option String
  pub is_active : Option Bool
  pub transform_script : Option String

-- An answer; `aborted` is a panic, which the recovery of the router answers by the status 500.
pub data Response : Type 0 where
  text : ℕ → String → Response
  action : ℕ → Action → Response
  actions : List Action → Response
  no_content aborted : Response

abbrev pub type_of : CreateActionRequest → ActionType
type_of req = if same req.type "" then action_type_webhook else req.type

-- tmpAction, with the zero values of the fields that are not set.
abbrev pub tmp_action : CreateActionRequest → Action
tmp_action req = record {
  id = 0;
  source_id = 0;
  type = type_of req;
  target_url = req.target_url;
  script_body = req.script_body;
  signing_secret = req.signing_secret;
  config = none;
  transform_script = none;
  is_active = false;
  created_at = 0;
  updated_at = 0;
}

abbrev pub params_of : Source → CreateActionRequest → ActionCreateParams
params_of src req = record {
  source_id = src.id;
  type = type_of req;
  target_url = req.target_url;
  signing_secret = req.signing_secret;
  script_body = req.script_body;
  config = none;
  transform_script = req.transform_script;
}

abbrev pub update_params : UpdateActionRequest → ActionUpdateParams
update_params req = record {
  target_url = req.target_url;
  signing_secret = req.signing_secret;
  is_active = req.is_active;
  script_body = none;
  config = none;
  transform_script = req.transform_script;
}

-- What follows a validation: an error text is answered, and a panic ends the handler.
unfoldable pub after_check : Ended (Option String) → Io Response → Io Response
after_check (returned none) k = k
after_check (returned (some e)) k = pure (text 400 e)
after_check _ k = pure aborted

module _ (host : Host) (vm : Vm) (registry : Registry) where
  unfoldable pub transform_error : Ended (Option ScriptError) → Ended (Option String)
  transform_error (returned none) = returned none
  transform_error (returned (some e)) =
      returned (some ("invalid transform script: " ++ vm.error_text e))
  transform_error (raised t) = raised t
  transform_error (interrupted t) = interrupted t
  transform_error (panicked t) = panicked t
  transform_error panicked_interrupted = panicked_interrupted

  -- A transform script that is given and not empty is validated before `k`.
  unfoldable pub check_transform : Option String → Io Response → Io Response
  unfolding transform_error after_check
  check_transform none k = k
  check_transform (some body) k =
      if same body ""
      then k
      else do n ← call; after_check (transform_error (validate_action_transform vm n body)) k

  unfoldable pub create_row : Source → CreateActionRequest → Io Response
  create_row src req = do
    r ← Actions.create host (params_of src req)
    pure (elim r [ err e ↦ text 500 "failed to create action" | ok a ↦ action 201 a ])

  unfoldable pub create_with : Option Dispatcher → Source → CreateActionRequest → Io Response
  unfolding after_check
  create_with none src req = pure (text 400 ("invalid action type: " ++ req.type))
  create_with (some d) src req = do
    n ← call
    after_check (d.validate n (tmp_action req))
        (check_transform req.transform_script (create_row src req))

  unfoldable pub create_in : Option CreateActionRequest → Source → Io Response
  unfolding create_with
  create_in none src = pure (text 400 "invalid request body")
  create_in (some req) src = create_with (Dispatch.get registry (type_of req)) src req

  abbrev pub or_not_found : {A : Type 0} → Result A → (A → Io Response) → Io Response
  or_not_found (err e) k = pure (text 404 "source not found")
  or_not_found (ok a) k = k a

  -- The request is none where its body cannot be bound.
  unfoldable pub create : String → Option CreateActionRequest → Io Response
  unfolding create_in
  create slug req = do s ← Sources.get_by_slug host slug; or_not_found s (create_in req)

  unfoldable pub list_of : Source → Io Response
  list_of src = do
    r ← Actions.list host src.id
    pure (elim r [ err e ↦ text 500 "failed to list actions" | ok l ↦ actions l ])

  unfoldable pub list : String → Io Response
  list slug = do s ← Sources.get_by_slug host slug; or_not_found s list_of

  unfoldable pub get : String → Io Response
  get id = elim (host.uuid_parse id) [
    | none ↦ pure (text 400 "invalid action id")
    | some u ↦ do
      r ← Actions.get_by_id host u
      pure (elim r [ err e ↦ text 404 "action not found" | ok a ↦ action 200 a ])
  ]

  unfoldable pub update_row : Uuid → UpdateActionRequest → Io Response
  update_row id req = do
    r ← Actions.update host id (update_params req)
    pure (elim r [ err e ↦ text 500 "failed to update action" | ok a ↦ action 200 a ])

  unfoldable pub update_by : Uuid → Option UpdateActionRequest → Io Response
  update_by id none = pure (text 400 "invalid request body")
  update_by id (some req) = check_transform req.transform_script (update_row id req)

  unfoldable pub update : String → Option UpdateActionRequest → Io Response
  update id req = elim (host.uuid_parse id) [
    | none ↦ pure (text 400 "invalid action id")
    | some u ↦ update_by u req
  ]

  unfoldable pub delete : String → Io Response
  delete id = elim (host.uuid_parse id) [
    | none ↦ pure (text 400 "invalid action id")
    | some u ↦ do
      r ← Actions.delete host u
      pure (elim r [ err e ↦ text 500 "failed to delete action" | ok _ ↦ no_content ])
  ]
