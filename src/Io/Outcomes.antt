-- ===== src/Io/Outcomes.antt =====
-- The two outcomes of a call: it has no effect and an error is returned, or it succeeds.
use nitrohook.Prelude.{ℕ, some, none, Option, ◌≡◌, refl, ◌∷◌, ◌⊎◌, inl, inr, Option-cases}
use nitrohook.Io.{
  Db, World, Message, Error, unavailable, scan, Result, ok, err, Host, query, exec, xadd, settle,
  unless_fault, call,
}
use nitrohook.Io.Reliable.{tick}

Result-cases : {A : Type 0} (r : Result A) → ((e : Error) × (r ≡ err e)) ⊎ ((a : A) × (r ≡ ok a))
Result-cases (err e) = inl (e, refl)
Result-cases (ok a) = inr (a, refl)

pub scan-ok : {A : Type 0} (o : Option A) (a : A) → scan o ≡ ok a → o ≡ some a
scan-ok none a h = cc
scan-ok (some b) a h = cc

module _ {A : Type 0} (host : Host) where
  pub query-cases :
      (read : ℕ → Db → Result A) (w : World)
      → ((e : Error) × (query host read w ≡ (err e, tick w)))
        ⊎ ((a : A) × (read w.calls w.db ≡ ok a) × (query host read w ≡ (ok a, tick w)))
  unfolding query call unless_fault
  query-cases read w = elim (Option-cases (host.fault w.calls)) [
    | inl fine ↦ elim (Result-cases (read w.calls w.db)) [
      | inl (e, p) ↦ inl (e, rw (fine, p) refl)
      | inr (a, p) ↦ inr (a, p, rw (fine, p) refl)
    ]
    | inr (text, broken) ↦ inl (unavailable text, rw broken refl)
  ]

  pub exec-cases :
      (write : ℕ → Db → Result (A × Db)) (w : World)
      → ((e : Error) × (exec host write w ≡ (err e, tick w)))
        ⊎ ((a : A) × (db : Db) × (write w.calls w.db ≡ ok (a, db))
            × (exec host write w ≡ (ok a, record (tick w) { db = db })))
  unfolding exec call unless_fault settle
  exec-cases write w = elim (Option-cases (host.fault w.calls)) [
    | inl fine ↦ elim (Result-cases (write w.calls w.db)) [
      | inl (e, p) ↦ inl (e, rw (fine, p) refl)
      | inr ((a, db), p) ↦ inr (a, db, p, rw (fine, p) refl)
    ]
    | inr (text, broken) ↦ inl (unavailable text, rw broken refl)
  ]

module _ {A : Type 0} (host : Host) where
  -- A statement that cannot be refused.
  pub write-cases :
      (write : ℕ → Db → A × Db) (w : World)
      → ((e : Error) × (exec host (λ n db. ok (write n db)) w ≡ (err e, tick w)))
        ⊎ (exec host (λ n db. ok (write n db)) w
            ≡ (ok (write w.calls w.db).0, record (tick w) { db = (write w.calls w.db).1 }))
  unfolding exec call unless_fault settle
  write-cases write w = elim (Option-cases (host.fault w.calls)) [
    | inl fine ↦ inr (rw fine refl)
    | inr (text, broken) ↦ inl (unavailable text, rw broken refl)
  ]

module _ (host : Host) where
  pub xadd-cases :
      (m : Message) (w : World)
      → ((e : Error) × (xadd host m w ≡ (err e, tick w)))
        ⊎ (xadd host m w ≡ (ok tt, record (tick w) { published = m ∷ w.published }))
  unfolding xadd call unless_fault
  xadd-cases m w = elim (Option-cases (host.fault w.calls)) [
    | inl fine ↦ inr (rw fine refl)
    | inr (text, broken) ↦ inl (unavailable text, rw broken refl)
  ]
