-- ===== src/Web/Sources.antt =====
-- web/source.go: the pages of the sources, and their forms.
use Prim.Native.String.{◌++◌}
use nitrohook.Prelude.{
  ℕ, String, Bool, false, not, ◌&&◌, ◌||◌, none, some, List, [], ◌∷◌, same, if◌then◌else◌,
}
use nitrohook.Model.{Uuid, Source}
use nitrohook.Io.{Error, Result, ok, err, Host, Io, ◌>>=◌, ◌>>◌, pure}
use nitrohook.Store.Sources
use nitrohook.Store.Actions
use nitrohook.Store.Deliveries
use nitrohook.Handler.Slug.{generate_slug}
use nitrohook.Handler.Sources.{Texts}
use nitrohook.Web.Pages.{
  Request, Forms, Response, text, redirect, hx_redirect, rendered, SourceData, sources_data,
  source_data, blank_source_data, field, is_blank,
}

-- `x, _ := f()`: what is left of a result.
abbrev pub or_empty : {A : Type 0} → Result (List A) → List A
or_empty (ok l) = l
or_empty (err e) = []

abbrev pub or_zero : Result ℕ → ℕ
or_zero (ok n) = n
or_zero (err e) = 0

-- generateSlug
unfoldable pub slug_of : Texts → String → String
slug_of t name = t.of_runes (generate_slug t.lower (t.runes name))

unfoldable pub webhook_url : Request → String → String
webhook_url r slug =
    (if r.tls || same (r.header "X-Forwarded-Proto") "https" then "https" else "http")
    ++ "://"
    ++ r.host
    ++ "/webhooks/"
    ++ slug

-- `if err != nil { answer; return }`
abbrev pub or_text : {A : Type 0} → ℕ → String → Result A → (A → Io Response) → Io Response
or_text status t (ok a) k = k a
or_text status t (err e) k = pure (text status t)

abbrev pub page : String → SourceData → Io Response
page name d = pure (rendered name none (source_data d))

abbrev pub fragment : String → String → SourceData → Io Response
fragment name part d = pure (rendered name (some part) (source_data d))

module _ (host : Host) where
  unfoldable pub action_counts : List Source → Io (List (Uuid × ℕ))
  action_counts [] = pure []
  action_counts (s ∷ rest) = do
    n ← Actions.count_by_source host s.id
    counts ← action_counts rest
    pure ((s.id, or_zero n) ∷ counts)

  unfoldable pub sources : Io Response
  sources = do
    r ← Sources.list host
    or_text 500 "Internal server error" r λ l. do
      counts ← action_counts l
      pure (
          rendered "sources" none (
            sources_data
              (record { nav = "sources"; sources = l; action_counts = counts; error = "" })))

  -- By the slug of the path, or the status 404.
  unfoldable pub with_source : String → (Source → Io Response) → Io Response
  with_source slug k = do s ← Sources.get_by_slug host slug; or_text 404 "Source not found" s k

  unfoldable pub source_detail : Request → String → Io Response
  source_detail r slug = with_source slug λ s. page "source-overview" (record blank_source_data {
    nav = "sources";
    source = some s;
    webhook_url = webhook_url r s.slug;
  })

  unfoldable pub source_script : String → Io Response
  source_script slug = with_source slug λ s. do
    ds ← Deliveries.list host (some slug) 10
    page "source-script"
        (record blank_source_data { nav = "sources"; source = some s; deliveries = or_empty ds })

  -- A request of htmx gets the card alone, unless it is boosted.
  abbrev pub is_fragment : Request → Bool
  is_fragment r = not (is_blank (r.header "HX-Request")) && is_blank (r.header "HX-Boosted")

  unfoldable pub source_actions : Request → String → Io Response
  source_actions r slug = with_source slug λ s. do
    l ← Actions.list host s.id
    or_text 500 "Internal server error" l λ actions.
        let d = record blank_source_data { nav = "sources"; source = some s; actions = actions } in
        if is_fragment r
        then fragment "source-actions" "actions-card" d
        else page "source-actions" d

  unfoldable pub source_events : Request → String → Io Response
  source_events r slug = with_source slug λ s. do
    ds ← Deliveries.list host (some slug) 50
    page "source-events" (record blank_source_data {
      nav = "sources";
      source = some s;
      deliveries = or_empty ds;
      webhook_url = webhook_url r s.slug;
    })

  -- The list of sources again, with an error.
  unfoldable pub sources_error : String → Io Response
  sources_error e = do
    l ← Sources.list host
    pure (
        rendered "sources" none (
          sources_data
            (record { nav = "sources"; sources = or_empty l; action_counts = []; error = e })))

  abbrev pub create_error : Texts → Error → String
  create_error t e =
      if t.contains (t.error_text e) "duplicate" || t.contains (t.error_text e) "unique"
      then "Source with this slug already exists"
      else "Failed to create source"

  abbrev pub created : Texts → String → Result Source → Io Response
  created t slug (ok s) = pure (redirect ("/sources/" ++ slug))
  created t slug (err e) = sources_error (create_error t e)

  unfoldable pub create_slug : Texts → String → String → Io Response
  create_slug t name slug =
      if is_blank slug
      then sources_error "Could not generate slug from name"
      else do r ← Sources.create host name slug "record" none; created t slug r

  unfoldable pub create_source : Texts → Forms → Request → Io Response
  create_source t f r =
      let name = field f r "name" in
      if is_blank name
      then sources_error "Name is required"
      else create_slug t name (slug_of t name)

  -- A failing update is only logged.
  unfoldable pub update_source : Forms → Request → String → Io Response
  update_source f r slug =
      let name = field f r "name" in
      if is_blank name then pure (redirect ("/sources/" ++ slug)) else do
        Sources.update host slug (some name) none none false
        pure (redirect ("/sources/" ++ slug))

  unfoldable pub delete_source : String → Io Response
  delete_source slug = do
    d ← Sources.delete host slug
    or_text 500 "Failed to delete source" d λ _. pure (hx_redirect "/sources")

  unfoldable pub update_source_mode : Request → String → Io Response
  update_source_mode r slug =
      let mode = r.form "mode" in
      if not (same mode "record") && not (same mode "active")
      then pure (text 400 "Invalid mode")
      else do
        u ← Sources.update host slug none (some mode) none false
        or_text 500 "Failed to update mode" u λ s. do
          l ← Actions.list host s.id
          fragment "source-overview" "mode-card"
              (record blank_source_data { source = some s; actions = or_empty l })
