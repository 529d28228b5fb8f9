-- ===== src/Store/Sources.antt =====
-- internal/store/source.go: the sources, found by slug or id.
use nitrohook.Prelude.{
  String, Bool, true, false, not, ◌&&◌, ◌||◌, Option, none, some, List, ◌∷◌, leb, ◌==◌, same,
  if◌then◌else◌, any, select, first, update_where, order_by,
}
use nitrohook.Model.{Uuid, Time, Source}
use nitrohook.Io.{
  Db, Result, ok, err, no_rows, unique_violation, check_violation, source_not_found, Host, Io,
  ◌>>=◌, query, exec, scan, pure,
}
use nitrohook.Store.Actions.{coalesce, coalesce_or}

unfoldable pub get_by_slug : Host → String → Io (Result Source)
get_by_slug host slug = query host λ _ db. scan (first (λ s. same s.slug slug) db.sources)

unfoldable pub get_by_id : Host → Uuid → Io (Result Source)
get_by_id host id = query host λ _ db. scan (first (λ s. s.id == id) db.sources)

unfoldable pub list : Host → Io (Result (List Source))
list host = query host λ _ db. ok (order_by (λ a b. leb b.created_at a.created_at) db.sources)

-- CHECK (mode IN ('record', 'active')) of migration 000005.
abbrev pub mode_ok : String → Bool
mode_ok mode = same mode "record" || same mode "active"

unfoldable pub add_source : Source → Db → Result (Source × Db)
add_source s db =
    if not (mode_ok s.mode)
    then err check_violation
    else if any (λ o. o.id == s.id || same o.slug s.slug) db.sources
    then err unique_violation
    else ok (s, record db { sources = s ∷ db.sources })

abbrev pub new_source : Uuid → Time → String → String → String → Option String → Source
new_source id now name slug mode script_body = record {
  id = id;
  name = name;
  slug = slug;
  mode = mode;
  script_body = script_body;
  created_at = now;
  updated_at = now;
}

unfoldable pub create : Host → String → String → String → Option String → Io (Result Source)
unfolding add_source
create host name slug mode script_body =
    exec host λ n. add_source (new_source (host.gen_uuid n) (host.now n) name slug mode script_body)

-- SET script_body = NULL, or COALESCE.
abbrev pub new_script : Bool → Option String → Option String → Option String
new_script true script_body old = none
new_script false script_body old = coalesce script_body old

-- The columns that an update sets.
abbrev pub changed : Time → Option String → Option String → Option String → Bool → Source → Source
changed now name mode script_body clear_script r = record r {
  name = coalesce_or name r.name;
  mode = coalesce_or mode r.mode;
  script_body = new_script clear_script script_body r.script_body;
  updated_at = now;
}

unfoldable pub change_source :
    Time → String → Option String → Option String → Option String → Bool → Db → Result (Source × Db)
change_source now slug name mode script_body clear_script db =
    elim (first (λ s. same s.slug slug) db.sources) [
      | none ↦ err no_rows
      | some s ↦
          let change : Source → Source = changed now name mode script_body clear_script in
          if mode_ok (coalesce_or mode s.mode)
          then ok (
            change s,
            record db { sources = update_where (λ r. same r.slug slug) change db.sources },
          )
          else err check_violation
    ]

-- pgx.ErrNoRows becomes "source not found".
abbrev pub or_not_found : {A : Type 0} → Result A → Result A
or_not_found (ok a) = ok a
or_not_found (err no_rows) = err source_not_found
or_not_found (err e) = err e

unfoldable pub update :
    Host → String → Option String → Option String → Option String → Bool → Io (Result Source)
unfolding change_source pure
update host slug name mode script_body clear_script = do
  r ← exec host (λ n. change_source (host.now n) slug name mode script_body clear_script)
  pure (or_not_found r)

abbrev pub of_source : Uuid → Db → Uuid → Bool
of_source source_id db delivery_id =
    any (λ d. d.id == delivery_id && d.source_id == source_id) db.deliveries

-- The row, and by ON DELETE CASCADE its actions, its deliveries and their attempts.
unfoldable pub remove_source : Source → Db → Db
remove_source s db = record {
  sources = select (λ o. not (o.id == s.id)) db.sources;
  actions = select (λ a. not (a.source_id == s.id)) db.actions;
  deliveries = select (λ d. not (d.source_id == s.id)) db.deliveries;
  attempts =
      select
        (λ t. not (
          of_source s.id db t.delivery_id
          || any (λ a. a.id == t.action_id && a.source_id == s.id) db.actions))
        db.attempts;
}

unfoldable pub delete : Host → String → Io (Result (Unit {0}))
unfolding remove_source
delete host slug = exec host λ _ db. elim (first (λ s. same s.slug slug) db.sources) [
  | none ↦ err source_not_found
  | some s ↦ ok (tt, remove_source s db)
]
