-- ===== src/Store/Actions.antt =====
-- internal/store/action.go: the actions of a source.
use nitrohook.Prelude.{
  ℕ, String, Bool, true, false, not, ◌&&◌, ◌||◌, Option, none, some, List, ◌∷◌, leb, ◌==◌, same,
  if◌then◌else◌, length, any, select, first, update_where, order_by,
}
use nitrohook.Model.{
  Uuid, Time, RawMessage, Action, ActionType, action_type_webhook, action_type_javascript,
  action_type_slack, action_type_smtp, action_type_twilio,
}
use nitrohook.Io.{
  Db, Result, ok, err, unique_violation, foreign_key_violation, check_violation, no_rows, Host, Io,
  query, exec, scan, stored,
}

pub record ActionCreateParams : Type 0 where
  pub source_id : Uuid
  pub type : ActionType
  pub target_url : Option String
  pub signing_secret : Option String
  pub script_body : Option String
  pub config : Option RawMessage
  pub transform_script : Option String

pub record ActionUpdateParams : Type 0 where
  pub target_url : Option String
  pub signing_secret : Option String
  pub is_active : Option Bool
  pub script_body : Option String
  pub config : Option RawMessage
  pub transform_script : Option String

abbrev pub is_set : {A : Type 0} → Option A → Bool
is_set none = false
is_set (some a) = true

-- chk_action_type, chk_webhook_target and chk_js_script of migrations 000006 and 000007.
unfoldable pub passes_checks : Action → Bool
passes_checks a =
    (same a.type action_type_webhook
      || same a.type action_type_javascript
      || same a.type action_type_slack
      || same a.type action_type_smtp
      || same a.type action_type_twilio)
    && (not (same a.type action_type_webhook) || is_set a.target_url)
    && (not (same a.type action_type_javascript) || is_set a.script_body)

-- A nullable JSONB argument: NULL stays NULL.
abbrev pub stored? :
    {B : Type 0} → Host → Option RawMessage → (Option RawMessage → Result B) → Result B
stored? host none k = k none
stored? host (some text) k = stored (host.jsonb text) (λ t. k (some t))

abbrev pub new_action : Uuid → Time → ActionCreateParams → Option RawMessage → Action
new_action id now p config = record {
  id = id;
  source_id = p.source_id;
  type = p.type;
  target_url = p.target_url;
  script_body = p.script_body;
  signing_secret = p.signing_secret;
  config = config;
  transform_script = p.transform_script;
  is_active = true;
  created_at = now;
  updated_at = now;
}

unfoldable pub add_action : Action → Db → Result (Action × Db)
unfolding passes_checks
add_action a db =
    if not (passes_checks a)
    then err check_violation
    else if any (λ o. o.id == a.id) db.actions
    then err unique_violation
    else if any (λ s. s.id == a.source_id) db.sources
    then ok (a, record db { actions = a ∷ db.actions })
    else err foreign_key_violation

unfoldable pub create : Host → ActionCreateParams → Io (Result Action)
unfolding add_action
create host p = exec host λ n db.
    stored? host p.config
      λ config. add_action (new_action (host.gen_uuid n) (host.now n) p config) db

unfoldable pub list : Host → Uuid → Io (Result (List Action))
list host source_id = query host λ _ db. ok (
    order_by (λ a b. leb b.created_at a.created_at)
      (select (λ a. a.source_id == source_id) db.actions))

unfoldable pub count_by_source : Host → Uuid → Io (Result ℕ)
count_by_source host source_id =
    query host λ _ db. ok (length (select (λ a. a.source_id == source_id) db.actions))

unfoldable pub get_by_id : Host → Uuid → Io (Result Action)
get_by_id host id = query host λ _ db. scan (first (λ a. a.id == id) db.actions)

-- COALESCE($n, column), for a column that may be NULL.
abbrev pub coalesce : {A : Type 0} → Option A → Option A → Option A
coalesce none old = old
coalesce (some new) old = some new

abbrev pub coalesce_or : {A : Type 0} → Option A → A → A
coalesce_or none old = old
coalesce_or (some new) old = new

abbrev pub with_params : Time → ActionUpdateParams → Option RawMessage → Action → Action
with_params now p config a = record a {
  target_url = coalesce p.target_url a.target_url;
  signing_secret = coalesce p.signing_secret a.signing_secret;
  is_active = coalesce_or p.is_active a.is_active;
  script_body = coalesce p.script_body a.script_body;
  config = coalesce config a.config;
  transform_script = coalesce p.transform_script a.transform_script;
  updated_at = now;
}

-- UPDATE ... WHERE id = $1 RETURNING: the row as it is after the update, or no row. The checks
-- cannot fail here: COALESCE sets no column to NULL, and the type stays.
unfoldable pub change_action : Uuid → (Action → Action) → Db → Result (Action × Db)
change_action id f db = elim (first (λ a. a.id == id) db.actions) [
  | none ↦ err no_rows
  | some a ↦ ok (f a, record db { actions = update_where (λ o. o.id == id) f db.actions })
]

unfoldable pub update : Host → Uuid → ActionUpdateParams → Io (Result Action)
unfolding change_action
update host id p =
    exec host λ n db.
      stored? host p.config λ config. change_action id (with_params (host.now n) p config) db

-- ON DELETE CASCADE takes the attempts of the action along.
unfoldable pub remove_action : Uuid → Db → Db
remove_action id db = record db {
  actions = select (λ a. not (a.id == id)) db.actions;
  attempts = select (λ t. not (t.action_id == id)) db.attempts;
}

unfoldable pub delete : Host → Uuid → Io (Result (Unit {0}))
unfolding remove_action
delete host id = exec host λ _ db. ok (tt, remove_action id db)

unfoldable pub active_of : Uuid → Db → List Action
active_of source_id db = select (λ a. a.source_id == source_id && a.is_active) db.actions

unfoldable pub list_active_by_source : Host → Uuid → Io (Result (List Action))
unfolding active_of
list_active_by_source host source_id = query host λ _ db. ok (active_of source_id db)
