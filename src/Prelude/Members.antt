-- ===== src/Prelude/Members.antt =====
-- Members of lists, and lists whose members are apart.
use mathlib.Core.Path.{◌≡◌, ◌∙◌}
use mathlib.Core.Bool.{Bool, true, false}
use mathlib.Core.Logic.{◌⊎◌, inl, inr}
use mathlib.Core.List.{List, [], ◌∷◌}
use native.Mathlib.Omega.{arith}
use nitrohook.Prelude.Tests.{if◌then◌else◌, Bool-cases}
use nitrohook.Prelude.Lists.{
  any, select, update_where, insert_by, order_by, All, All-select, All-update_where,
}

module _ {A : Type 0} where
  -- Some member has the property.
  abbrev pub Exists : (A → Type 0) → List A → Type 0
  Exists P [] = ⊥
  Exists P (x ∷ xs) = P x ⊎ Exists P xs

  -- Membership.
  abbrev pub In : A → List A → Type 0
  In a = Exists (λ x. a ≡ x)

  pub All-In : (P : A → Type 0) (xs : List A) (a : A) → All P xs → In a xs → P a
  All-In P [] a h m = absurd m
  All-In P (x ∷ xs) a h (inl e) = rw e h.0
  All-In P (x ∷ xs) a h (inr m) = All-In P xs a h.1 m

  pub Exists-In : (P : A → Type 0) (xs : List A) (a : A) → In a xs → P a → Exists P xs
  Exists-In P [] a m h = absurd m
  Exists-In P (x ∷ xs) a (inl e) h = inl (rw e at h)
  Exists-In P (x ∷ xs) a (inr m) h = inr (Exists-In P xs a m h)

  -- The members of a selection are the members that pass the test.
  pub In-select : (p : A → Bool) (xs : List A) (a : A) → In a (select p xs) → In a xs × (p a ≡ true)
  In-select p [] a m = absurd m
  In-select p (x ∷ xs) a m = ground (arith, In-select p xs a)

  -- What holds of a selection holds of the members that pass the test.
  pub All-of_select :
      (P : A → Type 0) (p : A → Bool) (xs : List A)
      → All P (select p xs)
      → All (λ x. p x ≡ true → P x) xs
  All-of_select P p [] h = tt
  All-of_select P p (x ∷ xs) h = elim (Bool-cases (p x)) [
    | inl e ↦ let h' = rw e at h in ((λ _. h'.0), All-of_select P p xs h'.1)
    | inr e ↦ ((λ t. cc (e, t)), All-of_select P p xs (rw e at h))
  ]

  In-insert_by :
      (before : A → A → Bool) (x : A) (xs : List A) (a : A)
      → In a (insert_by before x xs)
      → (a ≡ x) ⊎ In a xs
  In-insert_by before x [] a m = m
  In-insert_by before x (y ∷ ys) a m = ground (arith, In-insert_by before x ys a)

  pub In-order_by :
      (before : A → A → Bool) (xs : List A) (a : A) → In a (order_by before xs) → In a xs
  In-order_by before [] a m = m
  In-order_by before (x ∷ xs) a m = elim (In-insert_by before x (order_by before xs) a m) [
    | inl e ↦ inl e
    | inr n ↦ inr (In-order_by before xs a n)
  ]

  All-of_insert_by :
      (P : A → Type 0) (before : A → A → Bool) (x : A) (xs : List A)
      → All P (insert_by before x xs)
      → P x × All P xs
  All-of_insert_by P before x [] h = h
  All-of_insert_by P before x (y ∷ ys) h = elim (Bool-cases (before x y)) [
    | inl e ↦ rw e at h
    | inr e ↦
        let h' = rw e at h in let (hx, hs) = All-of_insert_by P before x ys h'.1 in (hx, (h'.0, hs))
  ]

  pub All-of_order_by :
      (P : A → Type 0) (before : A → A → Bool) (xs : List A) → All P (order_by before xs) → All P xs
  All-of_order_by P before [] h = h
  All-of_order_by P before (x ∷ xs) h =
      let (hx, hs) = All-of_insert_by P before x (order_by before xs) h in
      (hx, All-of_order_by P before xs hs)

  pub All-map : (P R : A → Type 0) (f : (x : A) → P x → R x) (xs : List A) → All P xs → All R xs
  All-map P R f [] h = tt
  All-map P R f (x ∷ xs) h = (f x h.0, All-map P R f xs h.1)

  pub Exists-map :
      (P R : A → Type 0) (f : (x : A) → P x → R x) (xs : List A) → Exists P xs → Exists R xs
  Exists-map P R f [] h = absurd h
  Exists-map P R f (x ∷ xs) (inl h) = inl (f x h)
  Exists-map P R f (x ∷ xs) (inr h) = inr (Exists-map P R f xs h)

module _ {A : Type 0} where
  pub All-of_any : (p : A → Bool) (xs : List A) → any p xs ≡ false → All (λ x. p x ≡ false) xs
  All-of_any p [] h = tt
  All-of_any p (x ∷ xs) h = (ground arith, All-of_any p xs (ground arith))

  -- No two members are in conflict, a later one before an earlier one.
  abbrev pub Apart : (A → A → Bool) → List A → Type 0
  Apart conflict [] = Unit
  Apart conflict (x ∷ xs) = All (λ y. conflict x y ≡ false) xs × Apart conflict xs

  pub Apart-select :
      (conflict : A → A → Bool) (p : A → Bool) (xs : List A)
      → Apart conflict xs
      → Apart conflict (select p xs)
  Apart-select conflict p [] h = tt
  Apart-select conflict p (x ∷ xs) h = elim (Bool-cases (p x)) [
    | inl e ↦ rw e (All-select _ p xs h.0, Apart-select conflict p xs h.1)
    | inr e ↦ rw e (Apart-select conflict p xs h.1)
  ]

  pub Apart-update_where :
      (conflict : A → A → Bool) (p : A → Bool) (f : A → A) (xs : List A)
      → ((x y : A) → conflict (f x) y ≡ conflict x y)
      → ((x y : A) → conflict x (f y) ≡ conflict x y)
      → Apart conflict xs
      → Apart conflict (update_where p f xs)
  Apart-update_where conflict p f [] l r h = tt
  Apart-update_where conflict p f (x ∷ xs) l r h =
      (head, Apart-update_where conflict p f xs l r h.1)
    where
      kept : All (λ y. conflict x y ≡ false) (update_where p f xs)
      kept = All-update_where _ p f xs (λ y _ e. r x y ∙ e) h.0

      head : All (λ y. conflict (if p x then f x else x) y ≡ false) (update_where p f xs)
      head = elim (Bool-cases (p x)) [
        | inl e ↦ rw e (All-map _ _ (λ y c. l x y ∙ c) (update_where p f xs) kept)
        | inr e ↦ rw e kept
      ]

module _ {A : Type 0} where
  pub All-both : (P R : A → Type 0) (xs : List A) → All P xs → All R xs → All (λ x. P x × R x) xs
  All-both P R [] h k = tt
  All-both P R (x ∷ xs) h k = ((h.0, k.0), All-both P R xs h.1 k.1)

  -- An update that makes a property true where it applies, and leaves the rest.
  pub All-update_where_from :
      (P R : A → Type 0) (p : A → Bool) (f : A → A) (xs : List A)
      → ((x : A) → p x ≡ true → P x → R (f x))
      → ((x : A) → P x → R x)
      → All P xs
      → All R (update_where p f xs)
  All-update_where_from P R p f [] k l h = tt
  All-update_where_from P R p f (x ∷ xs) k l h = elim (Bool-cases (p x)) [
    | inl e ↦ rw e (k x e h.0, All-update_where_from P R p f xs k l h.1)
    | inr e ↦ rw e (l x h.0, All-update_where_from P R p f xs k l h.1)
  ]

  -- The members of a selection pass its test.
  pub All-select_test :
      (P : A → Type 0) (p : A → Bool) (xs : List A)
      → All P xs
      → All (λ x. P x × (p x ≡ true)) (select p xs)
  All-select_test P p [] h = tt
  All-select_test P p (x ∷ xs) h = elim (Bool-cases (p x)) [
    | inl e ↦ rw e ((h.0, e), All-select_test P p xs h.1)
    | inr e ↦ rw e (All-select_test P p xs h.1)
  ]
