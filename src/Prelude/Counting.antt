-- ===== src/Prelude/Counting.antt =====
-- How many members a list can have whose members are apart.
use Prim.Native.Nat.{ℕ, zero, suc, ◌≤◌}
use mathlib.Core.Path.{◌≡◌, refl}
use mathlib.Core.Bool.{Bool, true, false, not}
use mathlib.Core.Logic.{inl, inr}
use mathlib.Core.List.{List, [], ◌∷◌}
use native.Mathlib.Omega.{arith}
use nitrohook.Prelude.Tests.{◌==◌, ==_iff, Bool-cases}
use nitrohook.Prelude.Lists.{length, select, All}
use nitrohook.Prelude.Members.{All-map, All-both, All-select_test, Apart, Apart-select}

module _ {A : Type 0} (key : A → ℕ) where
  abbrev pub same_key : A → A → Bool
  same_key x y = key y == key x

  -- With a key apart from all, none goes.
  length-others :
      (n : ℕ) (xs : List A)
      → All (λ y. (key y == n) ≡ false) xs
      → length (select (λ x. not (key x == n)) xs) ≡ length xs
  length-others n [] h = refl
  length-others n (x ∷ xs) h = rw (h.0, length-others n xs h.1) refl

  -- At most one member has a key.
  length-without :
      (n : ℕ) (xs : List A)
      → Apart same_key xs
      → length xs ≤ suc (length (select (λ x. not (key x == n)) xs))
  length-without n [] h = omega arith
  length-without n (x ∷ xs) h = elim (Bool-cases (key x == n)) [
    | inl e ↦
        let h' = rw ((==_iff (key x) n).0 e) at h.0 in rw (e, length-others n xs h') (omega arith)
    | inr e ↦ rw e (omega (arith, length-without n xs h.1))
  ]

  below_last : (k n : ℕ) → (1 ≤ k) × (k ≤ suc n) → not (k == suc n) ≡ true → (1 ≤ k) × (k ≤ n)
  below_last k n h e = ground arith

  -- Members that have different keys from 1 to `n` are at most `n`.
  pub length-Apart :
      (n : ℕ) (xs : List A)
      → Apart same_key xs
      → All (λ x. (1 ≤ key x) × (key x ≤ n)) xs
      → length xs ≤ n
  length-Apart zero [] h b = omega arith
  length-Apart zero (x ∷ xs) h b = omega (arith, b.0.0, b.0.1)
  length-Apart (suc n) xs h b =
      let kept : List A = select (λ x. not (key x == suc n)) xs in
      let rest = length-Apart n kept (Apart-select same_key _ xs h) (
        All-map _ _ (λ x q. below_last (key x) n q.0 q.1) kept
          (All-select_test _ (λ x. not (key x == suc n)) xs b)) in
      omega (arith, rest, length-without (suc n) xs h)

-- Members with a property that keeps them apart in another way.
pub Apart-under :
    {A : Type 0} (P : A → Type 0) (c d : A → A → Bool) (xs : List A)
    → ((x y : A) → P x → P y → c x y ≡ false → d x y ≡ false)
    → All P xs
    → Apart c xs
    → Apart d xs
Apart-under P c d [] k p h = tt
Apart-under P c d (x ∷ xs) k p h = (
  All-map _ _ (λ y q. k x y p.0 q.0 q.1) xs (All-both P _ xs p.1 h.0),
  Apart-under P c d xs k p.1 h.1,
)
