-- ===== src/Prelude/Presence.antt =====
-- Rows that are still there after an insertion, an update and a deletion.
use mathlib.Core.Path.{◌≡◌, refl}
use mathlib.Core.Bool.{Bool, true, false, not, ◌&&◌, ◌||◌}
use mathlib.Core.Logic.{inl, inr}
use mathlib.Core.Option.{some}
use mathlib.Core.List.{List, [], ◌∷◌}
use native.Mathlib.Omega.{arith}
use nitrohook.Prelude.Tests.{Bool-cases}
use nitrohook.Prelude.Lists.{any, select, first, update_where}

module _ {A : Type 0} where
  pub any-cons : (q : A → Bool) (x : A) (xs : List A) → any q xs ≡ true → any q (x ∷ xs) ≡ true
  any-cons q x xs h = ground arith

  pub any-update_where :
      (q p : A → Bool) (f : A → A) (xs : List A)
      → ((x : A) → q (f x) ≡ q x)
      → any q (update_where p f xs) ≡ any q xs
  any-update_where q p f [] same = refl
  any-update_where q p f (x ∷ xs) same = elim (Bool-cases (p x)) [
    | inl e ↦ rw (e, same x, any-update_where q p f xs same) refl
    | inr e ↦ rw (e, any-update_where q p f xs same) refl
  ]

  -- What is not among the rows that go is still there.
  pub any_kept :
      (q gone : A → Bool) (xs : List A)
      → any q xs ≡ true
      → any (λ x. q x && gone x) xs ≡ false
      → any q (select (λ x. not (gone x)) xs) ≡ true
  any_kept q gone [] h k = h
  any_kept q gone (x ∷ xs) h k = ground (arith, any_kept q gone xs)

  pub none_gone :
      (q gone : A → Bool) (xs : List A)
      → ((x : A) → q x ≡ true → gone x ≡ false)
      → any (λ x. q x && gone x) xs ≡ false
  none_gone q gone [] k = refl
  none_gone q gone (x ∷ xs) k = elim (Bool-cases (q x)) [
    | inl e ↦ rw (e, k x e, none_gone q gone xs k) refl
    | inr e ↦ rw (e, none_gone q gone xs k) refl
  ]

  -- A row that a SELECT finds is there.
  pub any-first :
      (p q : A → Bool) (xs : List A) (x : A) → first p xs ≡ some x → q x ≡ true → any q xs ≡ true
  any-first p q [] x e h = cc
  any-first p q (y ∷ ys) x e h = ground (arith, any-first p q ys x)

  pub any-or_right :
      (p q : A → Bool) (xs : List A) → any q xs ≡ true → any (λ x. p x || q x) xs ≡ true
  any-or_right p q [] h = h
  any-or_right p q (x ∷ xs) h = ground (arith, any-or_right p q xs)

  pub any-or :
      (p q : A → Bool) (xs : List A)
      → any p xs ≡ false
      → any q xs ≡ false
      → any (λ x. p x || q x) xs ≡ false
  any-or p q [] h k = refl
  any-or p q (x ∷ xs) h k = ground (arith, any-or p q xs)

  -- An update where there is nothing to update.
  pub update_where-none :
      (p : A → Bool) (f : A → A) (xs : List A) → any p xs ≡ false → update_where p f xs ≡ xs
  update_where-none p f [] h = refl
  update_where-none p f (x ∷ xs) h = elim (Bool-cases (p x)) [
    | inl e ↦ ground arith
    | inr e ↦ ground (arith, update_where-none p f xs)
  ]
