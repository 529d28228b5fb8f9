-- ===== src/Web/Keeps.antt =====
-- The handlers of the pages keep what the writes of the stores keep.
use nitrohook.Prelude.{String, Option, none, some}
use nitrohook.Model.{Source}
use nitrohook.Io.{Db, Host, Result, ok, err, Io, call}
use nitrohook.Io.Keeps.{Keeps, Keeps-pure, Keeps-bind, Keeps-query, Keeps-call, keeps_rules}
use nitrohook.Script.{Vm, validate}
use nitrohook.Store.Keeping.{ClientKeeps}
use nitrohook.Store.Deliveries
use nitrohook.Store.Actions
use nitrohook.Store.Sources
use nitrohook.Handler.Sources.{Texts}
use nitrohook.Web.Pages.{Request, Forms, Response}
use nitrohook.Web.Sources.{
  or_text, with_source, sources_error, created, create_slug, create_source, update_source,
  delete_source, update_source_mode,
}
use nitrohook.Web.Scripts.{
  Saved, validated, script_card, clear_script, save_valid, save_script, update_source_script,
  clear_source_script,
}

module _ {host : Host} {Q : Db → Type 0} (c : ClientKeeps host Q) where
  pub or_text-Keeps :
      {A : Type 0} (n : _) (t : String) (r : Result A) (k : A → Io Response)
      → ((a : A) → Keeps Q (k a))
      → Keeps Q (or_text n t r k)
  or_text-Keeps n t (ok a) k h = h a
  or_text-Keeps n t (err e) k h = Keeps-pure _

  pub with_source-Keeps :
      (slug : String) (k : Source → Io Response)
      → ((s : Source) → Keeps Q (k s))
      → Keeps Q (with_source host slug k)
  unfolding with_source Sources.get_by_slug
  with_source-Keeps slug k h =
      Keeps-bind (Sources.get_by_slug host slug) _ (Keeps-query host _)
        (λ s. or_text-Keeps 404 "Source not found" s k h)

  sources_error-Keeps : (e : String) → Keeps Q (sources_error host e)
  unfolding sources_error Sources.list
  sources_error-Keeps e = search (keeps_rules)

  created-Keeps : (t : Texts) (slug : String) (r : Result Source) → Keeps Q (created host t slug r)
  created-Keeps t slug (ok s) = Keeps-pure _
  created-Keeps t slug (err e) = sources_error-Keeps _

  create_slug-Keeps : (t : Texts) (name slug : String) → Keeps Q (create_slug host t name slug)
  unfolding create_slug
  create_slug-Keeps t name slug =
      search (keeps_rules, sources_error-Keeps, created-Keeps, c.source_created)

  pub create_source-Keeps :
      (t : Texts) (f : Forms) (r : Request) → Keeps Q (create_source host t f r)
  unfolding create_source
  create_source-Keeps t f r = search (keeps_rules, sources_error-Keeps, create_slug-Keeps)

  pub update_source-Keeps :
      (f : Forms) (r : Request) (slug : String) → Keeps Q (update_source host f r slug)
  unfolding update_source
  update_source-Keeps f r slug = search (keeps_rules, c.source_updated)

  pub delete_source-Keeps : (slug : String) → Keeps Q (delete_source host slug)
  unfolding delete_source
  delete_source-Keeps slug = search (keeps_rules, or_text-Keeps, c.source_deleted)

  pub update_source_mode-Keeps :
      (r : Request) (slug : String) → Keeps Q (update_source_mode host r slug)
  unfolding update_source_mode Actions.list
  update_source_mode-Keeps r slug = search (keeps_rules, or_text-Keeps, c.source_updated) depth 12

  script_card-Keeps :
      (slug : String) (saved : Saved) (s : Option Source) → Keeps Q (script_card host slug saved s)
  unfolding script_card Actions.list Deliveries.list
  script_card-Keeps slug saved none = Keeps-pure _
  script_card-Keeps slug saved (some s) = search (keeps_rules) depth 10

  clear_script-Keeps : (slug : String) → Keeps Q (clear_script host slug)
  unfolding clear_script
  clear_script-Keeps slug = search (keeps_rules, script_card-Keeps, c.source_updated)

  save_valid-Keeps :
      (slug body : String) (s : Source) (v : Option (Option String))
      → Keeps Q (save_valid host slug body s v)
  unfolding save_valid
  save_valid-Keeps slug body s none = Keeps-pure _
  save_valid-Keeps slug body s (some (some e)) = search (keeps_rules, script_card-Keeps)
  save_valid-Keeps slug body s (some none) =
      search (keeps_rules, script_card-Keeps, c.source_updated)

  save_script-Keeps :
      (vm : Vm) (slug body : String) (s : Source) → Keeps Q (save_script host vm slug body s)
  unfolding save_script
  save_script-Keeps vm slug body s =
      Keeps-bind call _ Keeps-call
        (λ n. save_valid-Keeps slug body s (validated vm (validate vm n body)))

  pub update_source_script-Keeps :
      (vm : Vm) (f : Forms) (r : Request) (slug : String)
      → Keeps Q (update_source_script host vm f r slug)
  unfolding update_source_script
  update_source_script-Keeps vm f r slug =
      search (keeps_rules, with_source-Keeps, clear_script-Keeps, save_script-Keeps)

  pub clear_source_script-Keeps : (slug : String) → Keeps Q (clear_source_script host slug)
  unfolding clear_source_script
  clear_source_script-Keeps slug =
      search (keeps_rules, or_text-Keeps, script_card-Keeps, c.source_updated)
