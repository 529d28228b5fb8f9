-- ===== src/Tests/Router.antt =====
-- A router that calls the first route that matches.
use nitrohook.Prelude.{
  String, ◌≡◌, refl, Option, none, some, List, [], ◌∷◌, In, inl, inr, Option-cases,
}
use nitrohook.Routes.{Method, Endpoint, Route, Params, match_route, IsRouter}

abbrev or_later : Endpoint → Option Params → Option (Endpoint × Params) → Option (Endpoint × Params)
or_later e none later = later
or_later e (some p) later = some (e, p)

unfoldable pub first_match : List Route → Method → List String → Option (Endpoint × Params)
first_match [] m path = none
first_match (r ∷ rest) m path = or_later r.endpoint (match_route r m path) (first_match rest m path)

abbrev Found : List Route → Method → List String → Endpoint → Params → Type 0
Found table m path e p =
    (r : Route) × In r table × (e ≡ r.endpoint) × (match_route r m path ≡ some p)

first_match-Found :
    (table : List Route) (m : Method) (path : List String) (e : Endpoint) (p : Params)
    → first_match table m path ≡ some (e, p)
    → Found table m path e p
unfolding first_match
first_match-Found [] m path e p h = cc h
first_match-Found (r ∷ rest) m path e p h = elim (Option-cases (match_route r m path)) [
  | inl missed ↦
      let (s, i, of_s, k) = first_match-Found rest m path e p (rw missed at h) in
      (s, inr i, of_s, k)
  | inr (q, matched) ↦ let same = rw matched at h in (r, inl refl, cc same, cc (matched, same))
]

first_match-missed :
    (table : List Route) (m : Method) (path : List String) (r : Route)
    → first_match table m path ≡ none
    → In r table
    → match_route r m path ≡ none
unfolding first_match
first_match-missed [] m path r h i = absurd i
first_match-missed (x ∷ xs) m path r h i = elim (Option-cases (match_route x m path)) [
  | inl missed ↦ elim i [
    | inl e ↦ rw e missed
    | inr j ↦ first_match-missed xs m path r (rw missed at h) j
  ]
  | inr (q, matched) ↦ cc (rw matched at h)
]

pub first_match-IsRouter : IsRouter first_match
first_match-IsRouter = record { found = first_match-Found; missed = first_match-missed }
