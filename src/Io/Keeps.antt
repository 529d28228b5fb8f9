-- ===== src/Io/Keeps.antt =====
-- Invariants of the tables under effectful code: one rule for each way to build it.
use mathlib.Core.Path.{subst}
use nitrohook.Prelude.{
  ℕ, String, ◌≡◌, refl, ap, Bool, true, false, Option, none, some, List, [], ◌∷◌, if◌then◌else◌,
}
use nitrohook.Io.{
  Db, Message, World, Result, ok, err, Host, Io, ◌>>=◌, pure, call, settle, unless_fault, query,
  exec, xadd,
}

-- `m` keeps the property `Q` of the tables, from every world and whatever its result.
pub record Keeps {A : Type 0} (Q : Db → Type 0) (m : Io A) : Type 0 where
  pub at : (w : World) → Q w.db → Q (m w).1.db

-- The tables of a result, and `db` where it has none.
abbrev written : {A : Type 0} → Db → Result (A × Db) → Db
written db (ok (a, db')) = db'
written db (err e) = db

-- What holds of the tables of a result holds of the tables that it is known to have.
pub holds_of-ok :
    {A : Type 0} (Q : Db → Type 0) (a b : A) (db db' : Db)
    → Q db
    → ◌≡◌ {A = Result (A × Db)} (ok (a, db)) (ok (b, db'))
    → Q db'
holds_of-ok Q a b db db' h e = subst Q (ap (written db) e) h

-- A statement that succeeds keeps `Q`.
abbrev pub Preserves : {A : Type 0} → (Db → Type 0) → (Db → Result (A × Db)) → Type 0
Preserves {A} Q write = (db db' : Db) (a : A) → Q db → write db ≡ ok (a, db') → Q db'

module _ {A : Type 0} {Q : Db → Type 0} where
  pub Keeps-pure : (a : A) → Keeps Q (pure a)
  unfolding pure
  Keeps-pure a = record { at = λ w h. h }

  pub Keeps-if : (b : Bool) (m n : Io A) → Keeps Q m → Keeps Q n → Keeps Q (if b then m else n)
  Keeps-if true m n km kn = km
  Keeps-if false m n km kn = kn

  pub Keeps-bind :
      {B : Type 0} (m : Io B) (f : B → Io A)
      → Keeps Q m
      → ((b : B) → Keeps Q (f b))
      → Keeps Q (m >>= f)
  Keeps-bind m f km kf = record { at = λ w h. (kf (m w).0).at (m w).1 (km.at w h) }

  Keeps-unless_fault :
      (fault : Option String) (m : Io (Result A)) → Keeps Q m → Keeps Q (unless_fault fault m)
  unfolding unless_fault
  Keeps-unless_fault none m k = k
  Keeps-unless_fault (some text) m k = record { at = λ w h. h }

  pub Keeps-query : (host : Host) (read : ℕ → Db → Result A) → Keeps Q (query host read)
  unfolding query
  Keeps-query host read = record {
    at = λ w h.
        (Keeps-unless_fault (host.fault w.calls) (λ w'. (read w.calls w'.db, w'))
            (record { at = λ w' h'. h' })).at
          (call w).1 h;
  }

  settle-keeps :
      (r : Result (A × Db)) (w : World)
      → ((a : A) (db : Db) → r ≡ ok (a, db) → Q db)
      → Q w.db
      → Q (settle r w).1.db
  unfolding settle
  settle-keeps (ok (a, db)) w k h = k a db refl
  settle-keeps (err e) w k h = h

  pub Keeps-exec :
      (host : Host) (write : ℕ → Db → Result (A × Db))
      → ((n : ℕ) → Preserves Q (write n))
      → Keeps Q (exec host write)
  unfolding exec
  Keeps-exec host write k = record {
    at = λ w h.
        (Keeps-unless_fault (host.fault w.calls) (λ w'. settle (write w.calls w'.db) w')
            (record {
              at = λ w' h'.
                  settle-keeps (write w.calls w'.db) w' (λ a db e. k w.calls w'.db db a h' e) h';
            })).at
          (call w).1 h;
  }

module _ {Q : Db → Type 0} where
  pub Keeps-call : Keeps Q call
  unfolding call
  Keeps-call = record { at = λ w h. h }

  pub Keeps-xadd : (host : Host) (m : Message) → Keeps Q (xadd host m)
  unfolding xadd
  Keeps-xadd host m = record {
    at = λ w h.
        (Keeps-unless_fault {A = Unit {0}} {Q = Q} (host.fault w.calls)
            (λ w'. (ok tt, record w' { published = m ∷ w'.published }))
            (record { at = λ w' h'. h' })).at
          (call w).1 h;
  }

  -- A loop over a list.
  pub Keeps-each :
      {A : Type 0} (body : A → Io (Unit {0})) (each : List A → Io (Unit {0}))
      → (each [] ≡ pure tt)
      → ((x : A) (xs : List A) → each (x ∷ xs) ≡ (body x >>= λ _. each xs))
      → ((x : A) → Keeps Q (body x))
      → (xs : List A) → Keeps Q (each xs)
  Keeps-each body each e f k [] = rw e (Keeps-pure tt)
  Keeps-each body each e f k (x ∷ xs) =
      rw f (Keeps-bind (body x) (λ _. each xs) (k x) (λ _. Keeps-each body each e f k xs))

pub ruleset keeps_rules = (Keeps-pure, Keeps-if, Keeps-bind, Keeps-query, Keeps-call, Keeps-xadd)

module _ {A : Type 0} {Q : Db → Type 0} where
  -- A statement that cannot be refused.
  pub Keeps-write :
      (host : Host) (write : ℕ → Db → A × Db)
      → ((n : ℕ) (db : Db) → Q db → Q (write n db).1)
      → Keeps Q (exec host (λ n db. ok (write n db)))
  Keeps-write host write k =
      Keeps-exec host (λ n db. ok (write n db))
        λ n db db' a h e. holds_of-ok Q (write n db).0 a (write n db).1 db' (k n db h) e
