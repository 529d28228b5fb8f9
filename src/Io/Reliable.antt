-- ===== src/Io/Reliable.antt =====
-- What calls do when none of them fails.
use nitrohook.Prelude.{ℕ, suc, ◌≡◌, none}
use nitrohook.Io.{Db, World, Result, Host, query, exec, settle}

abbrev pub IsReliable : Host → Type 0
IsReliable host = (n : ℕ) → host.fault n ≡ none

-- The world after one call.
abbrev pub tick : World → World
tick w = record w { calls = suc w.calls }

module _ {A : Type 0} (host : Host) (reliable : IsReliable host) where
  pub query-eq :
      (read : ℕ → Db → Result A) (w : World) → query host read w ≡ (read w.calls w.db, tick w)
  unfolding query
  query-eq read w = rw (reliable w.calls)

  pub exec-eq :
      (write : ℕ → Db → Result (A × Db)) (w : World)
      → exec host write w ≡ settle (write w.calls w.db) (tick w)
  unfolding exec
  exec-eq write w = rw (reliable w.calls)
