-- ===== src/Handler/Slug/Form.antt =====
-- The form of a slug, and that a slug is its own slug.
use nitrohook.Prelude.{
  ℕ, ◌≡◌, refl, Bool, true, false, ◌&&◌, List, [], ◌∷◌, ◌==◌, if◌then◌else◌, select, All, arith,
}
use nitrohook.Handler.Slug.{
  dash, is_slug_char, is_blank, starts_dash, hyphens, collapse, trim_left, trim_right,
  generate_slug,
}

abbrev pub Spaced : List ℕ → Type 0
Spaced [] = Unit
Spaced (c ∷ rest) = ((c == dash && starts_dash rest) ≡ false) × Spaced rest

abbrev pub ends_dash : List ℕ → Bool
ends_dash [] = false
ends_dash (c ∷ rest) = if is_blank rest then c == dash else ends_dash rest

abbrev pub Plain : List ℕ → Type 0
Plain s = All (λ c. is_slug_char c ≡ true) s

-- Letters a to z, digits and dashes, with no dash at an end or beside another.
pub record IsSlug (s : List ℕ) : Type 0 where
  pub plain : Plain s
  pub spaced : Spaced s
  pub starts : starts_dash s ≡ false
  pub ends : ends_dash s ≡ false

select-Plain : (s : List ℕ) → Plain (select is_slug_char s)
select-Plain [] = tt
select-Plain (c ∷ rest) = ground (arith, select-Plain rest)

collapse-Plain : (s : List ℕ) → Plain s → Plain (collapse s)
unfolding collapse
collapse-Plain [] h = tt
collapse-Plain (c ∷ rest) h = ground (arith, collapse-Plain rest h.1)

starts_dash-collapse : (s : List ℕ) → starts_dash (collapse s) ≡ starts_dash s
unfolding collapse
starts_dash-collapse [] = refl
starts_dash-collapse (c ∷ rest) = ground (arith, starts_dash-collapse rest)

collapse-Spaced : (s : List ℕ) → Spaced (collapse s)
unfolding collapse
collapse-Spaced [] = tt
collapse-Spaced (c ∷ rest) = ground (arith, collapse-Spaced rest, starts_dash-collapse rest)

trim_left-Plain : (s : List ℕ) → Plain s → Plain (trim_left s)
unfolding trim_left
trim_left-Plain [] h = tt
trim_left-Plain (c ∷ rest) h = ground (arith, h.0, h.1, trim_left-Plain rest h.1)

trim_left-Spaced : (s : List ℕ) → Spaced s → Spaced (trim_left s)
unfolding trim_left
trim_left-Spaced [] h = tt
trim_left-Spaced (c ∷ rest) h = ground (arith, h.0, h.1, trim_left-Spaced rest h.1)

starts_dash-trim_left : (s : List ℕ) → starts_dash (trim_left s) ≡ false
unfolding trim_left
starts_dash-trim_left [] = refl
starts_dash-trim_left (c ∷ rest) = ground (arith, starts_dash-trim_left rest)

trim_right-Plain : (s : List ℕ) → Plain s → Plain (trim_right s)
unfolding trim_right
trim_right-Plain [] h = tt
trim_right-Plain (c ∷ rest) h = ground (arith, h.0, trim_right-Plain rest h.1)

starts_dash-trim_right : (s : List ℕ) → starts_dash s ≡ false → starts_dash (trim_right s) ≡ false
unfolding trim_right
starts_dash-trim_right [] h = refl
starts_dash-trim_right (c ∷ rest) h = ground (arith, h)

trim_right-Spaced : (s : List ℕ) → Spaced s → Spaced (trim_right s)
unfolding trim_right
trim_right-Spaced [] h = tt
trim_right-Spaced (c ∷ rest) h =
    ground (arith, h.0, trim_right-Spaced rest h.1, starts_dash-trim_right rest)

ends_dash-trim_right : (s : List ℕ) → ends_dash (trim_right s) ≡ false
unfolding trim_right
ends_dash-trim_right [] = refl
ends_dash-trim_right (c ∷ rest) = ground (arith, ends_dash-trim_right rest)

-- Whatever the name, its slug has lower-case letters, digits and dashes only, with no dash at an
-- end and no two dashes side by side.
pub generate_slug-IsSlug :
    (lower : List ℕ → List ℕ) (name : List ℕ) → IsSlug (generate_slug lower name)
unfolding generate_slug
generate_slug-IsSlug lower name =
    let s = select is_slug_char (hyphens (lower name)) in
    let t = trim_left (collapse s) in
    record {
      plain =
          trim_right-Plain t
            (trim_left-Plain (collapse s) (collapse-Plain s (select-Plain (hyphens (lower name)))));
      spaced = trim_right-Spaced t (trim_left-Spaced (collapse s) (collapse-Spaced s));
      starts = starts_dash-trim_right t (starts_dash-trim_left (collapse s));
      ends = ends_dash-trim_right t;
    }

hyphens-eq : (s : List ℕ) → Plain s → hyphens s ≡ s
unfolding hyphens
hyphens-eq [] h = refl
hyphens-eq (c ∷ rest) h = ground (arith, h.0, hyphens-eq rest h.1)

select-eq : (s : List ℕ) → Plain s → select is_slug_char s ≡ s
select-eq [] h = refl
select-eq (c ∷ rest) h = ground (arith, h.0, select-eq rest h.1)

collapse-eq : (s : List ℕ) → Spaced s → collapse s ≡ s
unfolding collapse
collapse-eq [] h = refl
collapse-eq (c ∷ rest) h = ground (arith, h.0, collapse-eq rest h.1)

trim_left-eq : (s : List ℕ) → starts_dash s ≡ false → trim_left s ≡ s
unfolding trim_left
trim_left-eq [] h = refl
trim_left-eq (c ∷ rest) h = ground (arith, h)

trim_right-eq : (s : List ℕ) → ends_dash s ≡ false → trim_right s ≡ s
unfolding trim_right
trim_right-eq [] h = refl
trim_right-eq (c ∷ []) h = ground (arith, h)
trim_right-eq (c ∷ d ∷ rest) h = ground (arith, h, trim_right-eq (d ∷ rest) h)

-- A text of the form of a slug that lower case leaves alone is its own slug.
pub generate_slug-eq :
    (lower : List ℕ → List ℕ) (s : List ℕ) → IsSlug s → lower s ≡ s → generate_slug lower s ≡ s
unfolding generate_slug
generate_slug-eq lower s h lowered = rw (
  lowered,
  hyphens-eq s h.plain,
  select-eq s h.plain,
  collapse-eq s h.spaced,
  trim_left-eq s h.starts,
  trim_right-eq s h.ends,
)
