-- ===== src/Handler/Sources.antt =====
-- internal/handler/source.go: the sources over HTTP.
pub mod Made
use Prim.Native.String.{◌++◌}
use nitrohook.Prelude.{
  ℕ, String, Bool, false, not, ◌||◌, Option, none, some, List, same, if◌then◌else◌,
}
use nitrohook.Model.{Source}
use nitrohook.Io.{Error, Result, ok, err, Host, Io, ◌>>=◌, pure, call}
use nitrohook.Script.{Vm, ScriptError, Ended, returned, validate}
use nitrohook.Store.Sources
use nitrohook.Handler.Slug.{generate_slug}

pub record CreateSourceRequest : Type 0 where
  pub name : String
  pub slug : String
  pub mode : String
  pub script_body : Option String

pub record UpdateSourceRequest : Type 0 where
  pub name : Option String
  pub mode : Option String
  pub script_body : Option String

-- strings.ToLower and strings.Contains, the code points of a text, and Error() of the store's
-- errors.
pub record Texts : Type 0 where
  pub lower : List ℕ → List ℕ
  pub contains : String → String → Bool
  pub runes : String → List ℕ
  pub of_runes : List ℕ → String
  pub error_text : Error → String

-- An answer; `aborted` is a panic, which the recovery of the router answers by the status 500.
pub data Response : Type 0 where
  text : ℕ → String → Response
  source : ℕ → Source → Response
  sources : List Source → Response
  no_content aborted : Response

unfoldable pub validate_mode : String → Bool
validate_mode mode = same mode "record" || same mode "active"

abbrev pub slug_text : Texts → String → String
slug_text t name = t.of_runes (generate_slug t.lower (t.runes name))

module _ (host : Host) (vm : Vm) (t : Texts) where
  unfoldable pub checked : Ended (Option ScriptError) → Io Response → Io Response
  checked (returned none) k = k
  checked (returned (some e)) k = pure (text 400 ("invalid script: " ++ vm.error_text e))
  checked _ k = pure aborted

  -- A script that is given and not empty is validated before `k`.
  unfoldable pub validate_body : Option String → Io Response → Io Response
  unfolding checked
  validate_body none k = k
  validate_body (some body) k =
      if same body "" then k else do n ← call; checked (validate vm n body) k

  unfoldable pub created : Result Source → Response
  created (ok s) = source 201 s
  created (err e) =
      if t.contains (t.error_text e) "duplicate key" || t.contains (t.error_text e) "unique"
      then text 409 "source with this slug already exists"
      else text 500 "failed to create source"

  unfoldable pub create_row : String → String → String → Option String → Io Response
  create_row name slug mode body = do r ← Sources.create host name slug mode body; pure (created r)

  unfoldable pub create_as : CreateSourceRequest → String → String → Io Response
  create_as req slug mode =
      if same slug ""
      then pure (text 400 "could not generate slug from name")
      else if not (validate_mode mode)
      then pure (text 400 "mode must be 'record' or 'active'")
      else validate_body req.script_body (create_row req.name slug mode req.script_body)

  -- The request is none where its body cannot be bound.
  unfoldable pub create : Option CreateSourceRequest → Io Response
  create none = pure (text 400 "invalid request body")
  create (some req) =
      if same req.name ""
      then pure (text 400 "name is required")
      else create_as req (if same req.slug "" then slug_text t req.name else req.slug)
          (if same req.mode "" then "record" else req.mode)

  unfoldable pub list : Io Response
  list = do
    r ← Sources.list host
    pure (elim r [ err e ↦ text 500 "failed to list sources" | ok l ↦ sources l ])

  unfoldable pub get : String → Io Response
  get slug = do
    r ← Sources.get_by_slug host slug
    pure (elim r [ err e ↦ text 404 "source not found" | ok s ↦ source 200 s ])

  -- The texts for an error of Update and Delete.
  abbrev missing_or : String → Error → Response
  missing_or failure e =
      if t.contains (t.error_text e) "source not found"
      then text 404 "source not found"
      else text 500 failure

  abbrev is_refused : Option String → Bool
  is_refused none = false
  is_refused (some mode) = not (validate_mode mode)

  -- Empty string means "clear the script".
  abbrev clears : Option String → Bool
  clears none = false
  clears (some body) = same body ""

  unfoldable pub update : String → Option UpdateSourceRequest → Io Response
  update slug none = pure (text 400 "invalid request body")
  update slug (some req) =
      if is_refused req.mode
      then pure (text 400 "mode must be 'record' or 'active'")
      else validate_body req.script_body (do
        r ← Sources.update host slug req.name req.mode req.script_body (clears req.script_body)
        pure (elim r [ err e ↦ missing_or "failed to update source" e | ok s ↦ source 200 s ]))

  unfoldable pub delete : String → Io Response
  delete slug = do
    r ← Sources.delete host slug
    pure (elim r [ err e ↦ missing_or "failed to delete source" e | ok _ ↦ no_content ])
