-- ===== src/Io/Triple.antt =====
-- What a run establishes of its result and of the tables.
use nitrohook.Prelude.{ℕ, String, ◌≡◌, refl, Option, none, some, Bool, true, false, if◌then◌else◌}
use nitrohook.Io.{
  Db, World, Error, Result, ok, err, Host, Io, ◌>>=◌, call, settle, unless_fault, query, exec,
}
use nitrohook.Io.Keeps.{Keeps}

-- From tables with `P`, `m` ends with a result and tables in the relation `R`.
pub record Triple {A : Type 0} (P : Db → Type 0) (m : Io A) (R : A → Db → Type 0) : Type 0 where
  pub at : (w : World) → P w.db → R (m w).0 (m w).1.db

module _ {A : Type 0} {P : Db → Type 0} {R : A → Db → Type 0} where
  pub Triple-bind :
      {B : Type 0} (S : B → Db → Type 0) (m : Io B) (f : B → Io A)
      → Triple P m S
      → ((b : B) → Triple (S b) (f b) R)
      → Triple P (m >>= f) R
  Triple-bind S m f tm tf = record { at = λ w h. (tf (m w).0).at (m w).1 (tm.at w h) }

  pub Triple-weaken :
      (P' : Db → Type 0) (m : Io A) → ((db : Db) → P db → P' db) → Triple P' m R → Triple P m R
  Triple-weaken P' m f t = record { at = λ w h. t.at w (f w.db h) }

  pub Triple-if :
      (b : Bool) (m n : Io A) → Triple P m R → Triple P n R → Triple P (if b then m else n) R
  Triple-if true m n tm tn = tm
  Triple-if false m n tm tn = tn

module _ {A : Type 0} {Q : Db → Type 0} where
  -- An invariant, seen as a triple, and back.
  pub Triple-of_Keeps : (m : Io A) → Keeps Q m → Triple Q m (λ _. Q)
  Triple-of_Keeps m k = record { at = k.at }

  pub Keeps-of_Triple : (m : Io A) → Triple Q m (λ _. Q) → Keeps Q m
  Keeps-of_Triple m t = record { at = t.at }

module _ {A : Type 0} (R : Result A → Db → Type 0) where
  settled :
      (r : Result (A × Db)) (w : World)
      → ((e : Error) → R (err e) w.db)
      → ((a : A) (db : Db) → r ≡ ok (a, db) → R (ok a) db)
      → R (settle r w).0 (settle r w).1.db
  unfolding settle
  settled (ok (a, db)) w failed h = h a db refl
  settled (err e) w failed h = failed e

module _ {A : Type 0} {P : Db → Type 0} (R : Result A → Db → Type 0) (host : Host) where
  -- A read: what holds of what it reads.
  pub Triple-query :
      (read : ℕ → Db → Result A)
      → ((e : Error) (db : Db) → P db → R (err e) db)
      → ((n : ℕ) (db : Db) → P db → R (read n db) db)
      → Triple P (query host read) R
  unfolding query
  Triple-query read failed h = record { at = λ w p. go w p (host.fault w.calls) }
    where
      go :
          (w : World)
          → P w.db
          → (f : Option String)
          → R
              (unless_fault f (λ w'. (read w.calls w'.db, w')) (call w).1).0
              (unless_fault f (λ w'. (read w.calls w'.db, w')) (call w).1).1.db
      go w p none = h w.calls w.db p
      go w p (some text) = failed _ w.db p

  -- A write: what holds of the row that it returns.
  pub Triple-exec :
      (write : ℕ → Db → Result (A × Db))
      → ((e : Error) (db : Db) → P db → R (err e) db)
      → ((n : ℕ) (db db' : Db) (a : A) → P db → write n db ≡ ok (a, db') → R (ok a) db')
      → Triple P (exec host write) R
  unfolding exec
  Triple-exec write failed h = record { at = λ w p. go w p (host.fault w.calls) }
    where
      go :
          (w : World)
          → P w.db
          → (f : Option String)
          → R
              (unless_fault f (λ w'. settle (write w.calls w'.db) w') (call w).1).0
              (unless_fault f (λ w'. settle (write w.calls w'.db) w') (call w).1).1.db
      go w p none =
          settled R (write w.calls w.db) (call w).1 (λ e. failed e w.db p)
            (λ a db e. h w.calls w.db db a p e)
      go w p (some text) = failed _ w.db p
