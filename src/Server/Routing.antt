-- ===== src/Server/Routing.antt =====
-- The routes of cmd/api/main.go exclude each other: their order does not matter.
use nitrohook.Prelude.{
  String, ◌≡◌, refl, ◌∙◌, sym, Bool, true, false, not, ◌&&◌, ◌||◌, Option, none, some, List, [],
  ◌∷◌, arith, same, eq_iff, any, Apart, All-In, All-of_any, In, inl, inr, Option-cases,
}
use nitrohook.Routes.{
  Method, same_method, Segment, lit, named, Route, routes, Params, match_path, match_route,
  with_param, IsRouter,
}
use nitrohook.Server.{Server, Incoming, serve, serve_found, handle}

-- No path matches both patterns: their lengths differ, or two texts at one place.
abbrev pub clash : List Segment → List Segment → Bool
clash [] [] = false
clash [] (t ∷ ts) = true
clash (s ∷ ss) [] = true
clash (lit s ∷ ss) (lit t ∷ ts) = not (same s t) || clash ss ts
clash (lit s ∷ ss) (named n ∷ ts) = clash ss ts
clash (named n ∷ ss) (t ∷ ts) = clash ss ts

both_same : (s t x : String) → same s x ≡ true → same t x ≡ true → same s t ≡ true
both_same s t x e f = (eq_iff s t).1 ((eq_iff s x).0 e ∙ sym ((eq_iff t x).0 f))

with_param-some :
    (n x : String) (o : Option Params) (p : Params)
    → with_param n x o ≡ some p
    → (q : Params) × (o ≡ some q)
with_param-some n x none p h = cc
with_param-some n x (some q) p h = (q, refl)

match_path-clash :
    (ps qs : List Segment) (path : List String) (p : Params)
    → clash ps qs ≡ true
    → match_path qs path ≡ some p
    → match_path ps path ≡ none
unfolding match_path
match_path-clash [] [] path p c h = cc
match_path-clash [] (t ∷ ts) [] p c h = cc
match_path-clash [] (t ∷ ts) (x ∷ xs) p c h = refl
match_path-clash (s ∷ ss) qs [] p c h = refl
match_path-clash (s ∷ ss) [] (x ∷ xs) p c h = cc
match_path-clash (lit s ∷ ss) (lit t ∷ ts) (x ∷ xs) p c h =
    ground (arith, both_same s t x, match_path-clash ss ts xs p)
match_path-clash (lit s ∷ ss) (named n ∷ ts) (x ∷ xs) p c h =
    let (q, e) = with_param-some n x (match_path ts xs) p h in
    ground (arith, match_path-clash ss ts xs q c e)
match_path-clash (named n ∷ ss) (lit t ∷ ts) (x ∷ xs) p c h =
    ground (arith, match_path-clash ss ts xs p c)
match_path-clash (named n ∷ ss) (named m ∷ ts) (x ∷ xs) p c h =
    let (q, e) = with_param-some m x (match_path ts xs) p h in
    rw (match_path-clash ss ts xs q c e) refl

both_methods :
    (a b m : Method) → same_method a m ≡ true → same_method b m ≡ true → same_method a b ≡ true
unfolding same_method
both_methods a b m e f = ground arith

abbrev pub overlap : Route → Route → Bool
unfolding same_method
overlap r s = same_method r.method s.method && not (clash r.pattern s.pattern)

match_route-excludes :
    (r s : Route) (m : Method) (path : List String) (p : Params)
    → overlap r s ≡ false
    → match_route s m path ≡ some p
    → match_route r m path ≡ none
unfolding match_route
match_route-excludes r s m path p c h =
    ground (arith, both_methods r.method s.method m, match_path-clash r.pattern s.pattern path p)

unfoldable apart : List Route → Bool
unfolding same_method
apart [] = true
apart (r ∷ rest) = not (any (overlap r) rest) && apart rest

Apart-of_apart : (l : List Route) → apart l ≡ true → Apart overlap l
unfolding apart
Apart-of_apart [] h = tt
Apart-of_apart (r ∷ rest) h =
    (All-of_any (overlap r) rest (ground arith), Apart-of_apart rest (ground arith))

routes-Apart : Apart overlap routes
unfolding routes apart
routes-Apart = Apart-of_apart routes refl

-- Two routes that both match are the same.
match_route_unique :
    (l : List Route) (r s : Route) (m : Method) (path : List String) (p q : Params)
    → Apart overlap l
    → In r l
    → In s l
    → match_route r m path ≡ some p
    → match_route s m path ≡ some q
    → r ≡ s
match_route_unique [] r s m path p q h i j e f = absurd i
match_route_unique (x ∷ xs) r s m path p q h (inl i) (inl j) e f = i ∙ sym j
match_route_unique (x ∷ xs) r s m path p q h (inl i) (inr j) e f =
    let none_r = rw (sym i) at (match_route-excludes x s m path q (All-In _ xs s h.0 j) f) in
    cc (none_r, e)
match_route_unique (x ∷ xs) r s m path p q h (inr i) (inl j) e f =
    let none_s = rw (sym j) at (match_route-excludes x r m path p (All-In _ xs r h.0 i) e) in
    cc (none_s, f)
match_route_unique (x ∷ xs) r s m path p q h (inr i) (inr j) e f =
    match_route_unique xs r s m path p q h.1 i j e f

-- If the router behaves as gin documents, a request whose method and path match a route of the
-- table reaches the handler of that route, with the parameters that the route names, whichever of
-- several matching routes gin would call: no two routes match one request.
pub handle-routed :
    (server : Server) (q : Incoming) (r : Route) (p : Params)
    → IsRouter server.router
    → In r routes
    → match_route r q.method q.path ≡ some p
    → handle server q ≡ serve server r.endpoint q p
unfolding handle serve_found
handle-routed server q r p docs i h = elim (Option-cases (server.router routes q.method q.path)) [
  | inl missed ↦ cc (docs.missed routes q.method q.path r missed i, h)
  | inr ((e, p'), found) ↦
      let (s, j, of_s, k) = docs.found routes q.method q.path e p' found in
      let same_route = match_route_unique routes r s q.method q.path p p' routes-Apart i j h k in
      let same_params : p' ≡ p = cc (h, rw (sym same_route) at k) in
      rw (found, of_s, sym same_route, same_params) refl
]
