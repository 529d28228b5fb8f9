-- ===== src/Tests/Pages.antt =====
-- The pages, with a form of a Slack action and one without its fields.
use nitrohook.Prelude.{
  String, ◌≡◌, ◌≢◌, ◌↔◌, refl, true, false, none, some, List, [], ◌∷◌, same, if◌then◌else◌, inl,
  update_where, ◌==◌,
}
use nitrohook.Io.{World, Host}
use nitrohook.Model.{
  Source, Action, action_type_slack, action_type_smtp, action_type_twilio, pending as waiting,
}
use nitrohook.Dispatch.Net.{Net, pos, parsed, failure}
use nitrohook.Dispatch.Slack
use nitrohook.Dispatch.Smtp
use nitrohook.Dispatch.Twilio
use nitrohook.Web.Pages.{Request, Forms, ConfigValue}
use nitrohook.Web.Scripts.{update_source_script}
use nitrohook.Web.Scripts.Saving.{IsSaved, update_source_script-IsSaved}
use nitrohook.Web.Actions.{create_action, toggle_action, delete_action}
use nitrohook.Web.Actions.Scope.{toggle_and_delete}
use nitrohook.Web.Actions.Unconfigured.{bare_action, create_action-bare}
use nitrohook.Web.Actions.Config.{entries, build_action_config}
use nitrohook.Web.Actions.Config.Accepted.{
  slack_of, smtp_of, twilio_of, build_action_config-IsAccepted,
}
use nitrohook.Tests.Setup.{host, vm, source, action, world}
use nitrohook.Tests.Sending.{net}

abbrev pub forms : Forms
forms = record { trim = λ s. s; atoi_value = λ _. pos 25; marshal_config = λ _. some "slack" }

-- A form with the values of two fields.
abbrev pub page : String → String → Request
page url type = record {
  form = λ name.
      if same name "slack_webhook_url"
      then url
      else if same name "type"
      then type
      else if same name "script_body"
      then "ok"
      else "";
  header = λ _. "";
  tls = true;
  host = "example.org";
}

abbrev slack_entries : List (String × ConfigValue)
slack_entries = ("webhook_url", ConfigValue.text "hook") ∷ []

-- Unmarshal gives what Marshal was given.
abbrev reading : Net
reading = record net {
  unmarshal_slack = λ _. parsed (slack_of slack_entries);
  unmarshal_smtp = λ _. parsed (smtp_of slack_entries);
  unmarshal_twilio = λ _. parsed (twilio_of slack_entries);
}

abbrev slack_action : Action
slack_action = record (action "up") { type = action_type_slack; config = some "slack" }

only_entries :
    (cfg : List (String × ConfigValue))
    → entries forms (page "hook" "slack") action_type_slack ≡ some cfg
    → cfg ≡ slack_entries
unfolding entries
only_entries cfg h = cc h

build_action_config-IsAccepted_example :
    (action_type_slack ≡ action_type_slack → Slack.validate reading slack_action ≡ none)
    × (action_type_slack ≡ action_type_twilio → Twilio.validate reading slack_action ≡ none)
    × (action_type_slack ≡ action_type_smtp
        → (Smtp.validate reading slack_action ≡ none) ↔ (pos 25 ≢ pos 0))
unfolding build_action_config
build_action_config-IsAccepted_example =
    build_action_config-IsAccepted forms (page "hook" "slack") reading slack_action "slack"
      (λ cfg h.
        rw (only_entries cfg h)
          (record { slack = λ json m. refl; smtp = λ json m. refl; twilio = λ json m. refl }))
      refl refl

update_source_script-IsSaved_example :
    IsSaved "orders"
      (some "ok")
      (world "up" waiting)
      (update_source_script host vm forms (page "" "") "orders" (world "up" waiting))
update_source_script-IsSaved_example =
    update_source_script-IsSaved host "orders" vm forms (page "" "") (world "up" waiting)

-- A second source, and a host that reads each id as that of the action of the first.
abbrev other : Source
other = record source { id = 3; slug = "other" }

abbrev two : World
two = record (world "up" waiting) {
  db = record (world "up" waiting).db { sources = other ∷ source ∷ [] };
}

abbrev parsing : Host
parsing = record host { uuid_parse = λ _. some 2 }

toggle_and_delete_example :
    ((toggle_action parsing vm forms (page "" "") "other" "id" two).1.db ≡ record two.db {
      actions =
          update_where
            (λ o. o.id == 2)
            (λ o. record o { is_active = false; updated_at = 6 })
            two.db.actions;
    })
    × ((delete_action parsing vm forms (page "" "") "other" "id" two).1.db
        ≡ record two.db { actions = []; attempts = [] })
toggle_and_delete_example =
    toggle_and_delete parsing vm forms (page "" "") "other" "id" 2 other (action "up") two
      (λ n. refl) refl refl refl

create_action-bare_example :
    ((create_action host vm forms (page "" "slack") "orders" (world "up" waiting)).1.db
      ≡ record (world "up" waiting).db {
        actions =
            bare_action host (world "up" waiting) source "slack" ∷ (world "up" waiting).db.actions;
      })
    × ((id payload headers : String) (v : _)
        → (Slack.dispatch net
              (bare_action host (world "up" waiting) source "slack")
              id
              payload
              headers
              v
            ≡ (failure "config is required", v))
          × (Smtp.dispatch net
                (bare_action host (world "up" waiting) source "slack")
                id
                payload
                headers
                v
              ≡ (failure "config is required", v))
          × (Twilio.dispatch net
                (bare_action host (world "up" waiting) source "slack")
                id
                payload
                headers
                v
              ≡ (failure "config is required", v)))
unfolding entries
create_action-bare_example =
    create_action-bare host vm forms (page "" "slack") source (world "up" waiting) (λ n. refl) net
      "orders" "slack" (inl refl) refl refl refl refl refl
