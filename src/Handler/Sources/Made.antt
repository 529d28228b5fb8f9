-- ===== src/Handler/Sources/Made.antt =====
-- What the creation of a source leaves behind, whichever calls fail.
use nitrohook.Prelude.{
  ℕ, ap, sym, String, ◌≡◌, ◌≤◌, refl, true, false, ◌||◌, Option, none, some, ◌∷◌, ◌==◌, any, same,
  arith, inl, inr, Bool-cases,
}
use nitrohook.Model.{Source}
use nitrohook.Io.{World, Error, err, Host, Io, pure, call}
use nitrohook.Io.Reliable.{tick}
use nitrohook.Io.Outcomes.{exec-cases}
use nitrohook.Script.{
  Vm, ScriptError, Ended, returned, raised, interrupted, panicked, panicked_interrupted, validate,
}
use nitrohook.Store.Sources
use nitrohook.Store.Sources.{add_source, new_source}
use nitrohook.Store.Inversion.{add_source-ok}
use nitrohook.Handler.Sources.{
  CreateSourceRequest, Texts, Response, text, source, aborted, validate_mode, checked,
  validate_body, created, create_row, create_as, create,
}

-- The tables are as they were under an error, or there is one more source: of the name of the
-- request, in a mode that there is, and with a slug that is not empty and that no other has.
pub data IsMade (name : String) (w : World) : Response × World → Type 0 where
  refused :
      (w' : World) (status : ℕ) (t : String)
      → 400 ≤ status
      → w'.db ≡ w.db
      → IsMade name w (text status t, w')
  panicked_out : (w' : World) → w'.db ≡ w.db → IsMade name w (aborted, w')
  made :
      (w' : World) (s : Source)
      → s.name ≡ name
      → same s.slug "" ≡ false
      → validate_mode s.mode ≡ true
      → any (λ o. o.id == s.id || same o.slug s.slug) w.db.sources ≡ false
      → w'.db ≡ record w.db { sources = s ∷ w.db.sources }
      → IsMade name w (source 201 s, w')

module _ (host : Host) (vm : Vm) (t : Texts) (w₀ : World) where
  created-IsMade :
      (name : String) (e : Error) (w : World)
      → w.db ≡ w₀.db
      → IsMade name w₀ (created host vm t (err e), w)
  unfolding created
  created-IsMade name e w as_before =
      elim (Bool-cases
        (t.contains (t.error_text e) "duplicate key" || t.contains (t.error_text e) "unique")) [
          | inl y ↦ rw y (refused w _ _ (omega arith) as_before)
          | inr n ↦ rw n (refused w _ _ (omega arith) as_before)
        ]

  create_row-IsMade :
      (name slug mode : String) (body : Option String) (w : World)
      → same slug "" ≡ false
      → validate_mode mode ≡ true
      → w.db ≡ w₀.db
      → IsMade name w₀ (create_row host vm t name slug mode body w)
  unfolding create_row Sources.create created pure
  create_row-IsMade name slug mode body w named known as_before =
      elim (exec-cases host
        (λ n. add_source (new_source (host.gen_uuid n) (host.now n) name slug mode body)) w) [
          | inl (e, p) ↦ rw p (created-IsMade name e (tick w) as_before)
          | inr (s, db, h, p) ↦
              let (e, free, set) = add_source-ok _ s w.db db h in
              rw p (
                made (record (tick w) { db = db }) s (ap (λ r. r.name) e) (rw e named) (rw e known)
                  (rw (sym as_before, e) free) (rw (sym as_before, e) set))
        ]

  validate_body-IsMade :
      (name : String) (body : Option String) (k : Io Response)
      → ((w : World) → w.db ≡ w₀.db → IsMade name w₀ (k w))
      → (w : World) → w.db ≡ w₀.db
      → IsMade name w₀ (validate_body host vm t body k w)
  unfolding validate_body checked call pure
  validate_body-IsMade name none k made_by w as_before = made_by w as_before
  validate_body-IsMade name (some body) k made_by w as_before = elim (Bool-cases (same body "")) [
    | inl e ↦ rw e (made_by w as_before)
    | inr n ↦ rw n (checked-IsMade (validate vm w.calls body))
  ]
    where
      checked-IsMade :
          (o : Ended (Option ScriptError)) → IsMade name w₀ (checked host vm t o k (tick w))
      checked-IsMade (returned none) = made_by (tick w) as_before
      checked-IsMade (returned (some e)) = refused (tick w) _ _ (omega arith) as_before
      checked-IsMade (raised s) = panicked_out (tick w) as_before
      checked-IsMade (interrupted s) = panicked_out (tick w) as_before
      checked-IsMade (panicked s) = panicked_out (tick w) as_before
      checked-IsMade panicked_interrupted = panicked_out (tick w) as_before

  create_as-IsMade :
      (req : CreateSourceRequest) (slug mode : String) (w : World)
      → w.db ≡ w₀.db
      → IsMade req.name w₀ (create_as host vm t req slug mode w)
  unfolding create_as pure
  create_as-IsMade req slug mode w as_before = elim (Bool-cases (same slug "")) [
    | inl e ↦ rw e (refused w _ _ (omega arith) as_before)
    | inr named ↦ elim (Bool-cases (validate_mode mode)) [
      | inl known ↦
          rw (named, known)
            (validate_body-IsMade req.name req.script_body
              (create_row host vm t req.name slug mode req.script_body)
              (λ w'. create_row-IsMade req.name slug mode req.script_body w' named known) w
              as_before)
      | inr unknown ↦ rw (named, unknown) (refused w _ _ (omega arith) as_before)
    ]
  ]

-- Whichever calls fail and however the script validates, a request to create a source changes
-- nothing when it is answered by an error or ends in a panic; otherwise it adds one source, of the
-- name that was asked for, in the mode "record" or "active", whose slug is not empty and which
-- shares neither its id nor its slug with a source before it.
pub create-IsMade :
    (host : Host) (vm : Vm) (t : Texts) (req : CreateSourceRequest) (w : World)
    → IsMade req.name w (create host vm t (some req) w)
unfolding create pure
create-IsMade host vm t req w = elim (Bool-cases (same req.name "")) [
  | inl e ↦ rw e (refused w _ _ (omega arith) refl)
  | inr n ↦ rw n (create_as-IsMade host vm t w req _ _ w refl)
]
