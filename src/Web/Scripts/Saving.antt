-- ===== src/Web/Scripts/Saving.antt =====
-- UpdateSourceScript of web/source.go, whichever calls fail.
use Prim.Native.String.{◌++◌}
use mathlib.Core.Path.{subst}
use nitrohook.Prelude.{
  String, ◌≡◌, ◌∙◌, sym, refl, Bool, true, false, Option, none, some, first, same, inl, inr, arith,
  Bool-cases, Option-cases, if◌then◌else◌, update_where,
}
use nitrohook.Model.{Source, Time}
use nitrohook.Io.{
  Error, no_rows, unique_violation, foreign_key_violation, check_violation, invalid_json,
  source_not_found, unavailable, Db, World, ok, err, Host, ◌>>=◌, pure, call, scan,
}
use nitrohook.Io.Keeps.{Keeps, keeps_rules}
use nitrohook.Io.Reliable.{tick}
use nitrohook.Io.Outcomes.{query-cases, exec-cases}
use nitrohook.Script.{Vm}
use nitrohook.Store.Sources
use nitrohook.Store.Sources.{mode_ok, changed, change_source, or_not_found}
use nitrohook.Store.Actions
use nitrohook.Store.Deliveries
use nitrohook.Web.Pages.{
  SourceData, source_data, Request, Forms, Response, text, rendered, aborted, is_blank,
}
use nitrohook.Web.Sources.{with_source}
use nitrohook.Web.Scripts.{
  Saved, after_update, script_card, clear_script, save_valid, save_script, update_source_script,
}

-- A card with the source, and the error or the success it shows.
pub record IsCard (r : Response) (source : Source) (error success : String) : Type 0 where
  data_of : SourceData
  shown : r ≡ rendered "source-script" (some "script-card") (source_data data_of)
  of_source : data_of.source ≡ some source
  of_error : data_of.script_error ≡ error
  of_success : data_of.script_success ≡ success

-- The source with another script, and nothing else changed but the time of the change.
abbrev pub with_script : Option String → Time → Source → Source
with_script script now s = record s { script_body = script; updated_at = now }

-- The text of the success.
abbrev pub success_text : Option String → String
success_text none = "Script cleared"
success_text (some body) = "Script saved"

-- What a request to set the script of the source `slug`, to a text or to none, can do.
pub data IsSaved (slug : String) (script : Option String) (w : World) (out : Response × World)
    : Type 0 where
  -- The answer is the status 404.
  missing : out.0 ≡ text 404 "Source not found" → out.1.db ≡ w.db → IsSaved slug script w out
  -- The handler panics.
  lost : out.0 ≡ aborted → out.1.db ≡ w.db → IsSaved slug script w out
  refused :
      (s : Source) (e : String)
      → IsCard out.0 s ("Invalid script: " ++ e) ""
      → out.1.db ≡ w.db
      → IsSaved slug script w out
  saved :
      (s : Source) (now : Time)
      → first (λ r. same r.slug slug) w.db.sources ≡ some s
      → out.1.db ≡ record w.db {
        sources = update_where (λ r. same r.slug slug) (with_script script now) w.db.sources;
      }
      → IsCard out.0 (with_script script now s) "" (success_text script)
      → IsSaved slug script w out

-- The arguments of Update that set the script to a text, or clear it.
abbrev is_cleared : Option String → Bool
is_cleared none = true
is_cleared (some body) = false

-- What an UPDATE of the script alone does, if it succeeds.
change_source-found :
    (script : Option String) (clear : Bool) (now : Time) (slug : String) (r : Source) (db db' : Db)
    → change_source now slug none none script clear db ≡ ok (r, db')
    → (s : Source) × (first (λ o. same o.slug slug) db.sources ≡ some s)
      × (r ≡ changed now none none script clear s)
      × (db' ≡ record db {
        sources =
            update_where (λ o. same o.slug slug) (changed now none none script clear) db.sources;
      })
unfolding change_source
change_source-found script clear now slug r db db' h =
    elim (Option-cases (first (λ o. same o.slug slug) db.sources)) [
      | inl e ↦ ground arith
      | inr (s, e) ↦ elim (Bool-cases (mode_ok s.mode)) [
        | inl good ↦ (s, e, ground arith, ground arith)
        | inr bad ↦ ground arith
      ]
    ]

change_source-with_script :
    (script : Option String) (now : Time) (slug : String) (r : Source) (db db' : Db)
    → change_source now slug none none script (is_cleared script) db ≡ ok (r, db')
    → (s : Source) × (first (λ o. same o.slug slug) db.sources ≡ some s)
      × (r ≡ with_script script now s)
      × (db' ≡ record db {
        sources = update_where (λ o. same o.slug slug) (with_script script now) db.sources;
      })
change_source-with_script none = change_source-found none true
change_source-with_script (some body) = change_source-found (some body) false

or_not_found-err : {A : Type 0} (e : Error) → (e' : Error) × (or_not_found {A = A} (err e) ≡ err e')
or_not_found-err no_rows = (source_not_found, refl)
or_not_found-err unique_violation = (unique_violation, refl)
or_not_found-err foreign_key_violation = (foreign_key_violation, refl)
or_not_found-err check_violation = (check_violation, refl)
or_not_found-err invalid_json = (invalid_json, refl)
or_not_found-err source_not_found = (source_not_found, refl)
or_not_found-err (unavailable t) = (unavailable t, refl)

module _ (host : Host) (slug : String) where
  script_card-IsCard :
      (v : Saved) (s : Source) (w : World)
      → IsCard (script_card host slug v (some s) w).0 s v.script_error v.script_success
  unfolding script_card pure
  script_card-IsCard v s w = record {
    data_of = _;
    shown = refl;
    of_source = refl;
    of_error = refl;
    of_success = refl;
  }

  script_card-db :
      (v : Saved) (s : Source) (w : World) → (script_card host slug v (some s) w).1.db ≡ w.db
  unfolding script_card Actions.list Deliveries.list
  script_card-db v s w =
      let k : Keeps (λ db. db ≡ w.db) (script_card host slug v (some s)) =
        search (keeps_rules) depth 10 in
      k.at w refl

  update-IsSaved :
      (script : Option String) (failure : String) (w v : World)
      → v.db ≡ w.db
      → IsSaved slug script w (
          (do
            u ← Sources.update host slug none none script (is_cleared script)
            let saved = after_update (success_text script) failure u
            script_card host slug saved saved.source)
            v)
  unfolding Sources.update script_card pure
  update-IsSaved script failure w v same_db =
      elim (exec-cases host
        (λ n. change_source (host.now n) slug none none script (is_cleared script)) v) [
          | inl (e, p) ↦
              let (e', q) = or_not_found-err {A = Source} e in rw (p, q) (lost refl same_db)
          | inr (r, db, h, p) ↦
              let now : Time = host.now v.calls in
              let shown : Saved = after_update (success_text script) failure (ok r) in
              let u : World = record (tick v) { db = db } in
              let (s, found, new, set) =
                change_source-with_script script now slug r w.db db (rw (sym same_db) h) in
              rw p (
                saved s now found (script_card-db shown r u ∙ set) (
                  subst
                    (λ x.
                      IsCard (script_card host slug shown (some r) u).0 x "" (success_text script))
                    new (script_card-IsCard shown r u)))
        ]

  save_valid-IsSaved :
      (body : String) (s : Source) (o : Option (Option String)) (w v : World)
      → v.db ≡ w.db
      → IsSaved slug (some body) w (save_valid host slug body s o v)
  unfolding save_valid pure
  save_valid-IsSaved body s none w v same_db = lost refl same_db
  save_valid-IsSaved body s (some (some e)) w v same_db =
      let shown : Saved = record {
        source = some s;
        script_error = "Invalid script: " ++ e;
        script_success = "";
      } in
      refused s e (script_card-IsCard shown s v) (script_card-db shown s v ∙ same_db)
  save_valid-IsSaved body s (some none) w v same_db =
      update-IsSaved (some body) "Failed to save script" w v same_db

  module _ (vm : Vm) (f : Forms) (r : Request) where
    abbrev blank : Bool
    blank = is_blank (f.trim (r.form "script_body"))

    -- Whichever calls fail, UpdateSourceScript answers that there is no source, or refuses the
    -- script with its error, or has set script_body of the source to the form's text (to NULL,
    -- where that is blank) and updated_at, and shows the row with these and a success; or it panics
    -- and has changed nothing. It never shows that the script could not be saved.
    pub update_source_script-IsSaved :
        (w : World)
        → IsSaved slug
            (if blank then none else some (r.form "script_body"))
            w
            (update_source_script host vm f r slug w)
    unfolding update_source_script with_source clear_script save_script Sources.get_by_slug call
        pure
    update_source_script-IsSaved w =
        elim (query-cases host (λ _ db. scan (first (λ s. same s.slug slug) db.sources)) w) [
          | inl (e, p) ↦ rw p (missing refl refl)
          | inr (s, h, p) ↦ elim (Bool-cases blank) [
            | inl b ↦ rw (p, b) (update-IsSaved none "Failed to clear script" w (tick w) refl)
            | inr b ↦ rw (p, b) (save_valid-IsSaved (r.form "script_body") s _ w _ refl)
          ]
        ]
