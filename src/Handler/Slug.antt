-- ===== src/Handler/Slug.antt =====
-- generateSlug of internal/handler/source.go, on the code points of a name.
pub mod Form
use nitrohook.Prelude.{
  ℕ, Bool, true, false, ◌&&◌, ◌||◌, List, [], ◌∷◌, leb, ◌==◌, if◌then◌else◌, select,
}

-- '-', the space, and [a-z0-9-]
abbrev pub dash : ℕ
dash = 45

abbrev pub is_slug_char : ℕ → Bool
is_slug_char c = leb 97 c && leb c 122 || leb 48 c && leb c 57 || c == dash

abbrev pub is_blank : List ℕ → Bool
is_blank [] = true
is_blank (c ∷ rest) = false

abbrev pub starts_dash : List ℕ → Bool
starts_dash [] = false
starts_dash (c ∷ rest) = c == dash

-- ReplaceAll(s, " ", "-")
unfoldable pub hyphens : List ℕ → List ℕ
hyphens [] = []
hyphens (c ∷ rest) = (if c == 32 then dash else c) ∷ hyphens rest

-- multiDash: a run of dashes becomes one.
unfoldable pub collapse : List ℕ → List ℕ
collapse [] = []
collapse (c ∷ rest) =
    let short = collapse rest in if c == dash && starts_dash rest then short else c ∷ short

-- Trim(s, "-")
unfoldable pub trim_left : List ℕ → List ℕ
trim_left [] = []
trim_left (c ∷ rest) = let short = trim_left rest in if c == dash then short else c ∷ rest

unfoldable pub trim_right : List ℕ → List ℕ
trim_right [] = []
trim_right (c ∷ rest) =
    let short = trim_right rest in if c == dash && is_blank short then [] else c ∷ short

-- `lower` is strings.ToLower.
unfoldable pub generate_slug : (List ℕ → List ℕ) → List ℕ → List ℕ
unfolding hyphens collapse trim_left trim_right
generate_slug lower name =
    trim_right (trim_left (collapse (select is_slug_char (hyphens (lower name)))))
