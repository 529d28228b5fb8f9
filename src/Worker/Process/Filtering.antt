-- ===== src/Worker/Process/Filtering.antt =====
-- filterActions on the references that a script of the source gets and hands back.
use nitrohook.Prelude.{
  ◌≡◌, refl, Bool, true, some, List, [], ◌∷◌, ◌==◌, ==_refl, any, select, arith, All, All-map,
}
use nitrohook.Model.{Action}
use nitrohook.Script.{Vm, ActionRef, refs_for_js, parse_refs}
use nitrohook.Worker.Process.{refs_of, filter_actions}

-- The id of an action can be read back from its text.
abbrev pub IsReadable : Vm → Action → Type 0
IsReadable vm a = vm.uuid_parse (vm.uuid_string a.id) ≡ some a.id

parse_refs-refs_of :
    (vm : Vm) (actions : List Action)
    → All (IsReadable vm) actions
    → parse_refs vm (refs_for_js vm (refs_of actions)) ≡ refs_of actions
unfolding parse_refs
parse_refs-refs_of vm [] h = refl
parse_refs-refs_of vm (a ∷ rest) h = rw (h.0, parse_refs-refs_of vm rest h.1) refl

-- The test of filterActions: `keptIDs[a.ID]`.
abbrev pub is_kept : List ActionRef → Action → Bool
is_kept kept a = any (λ k. k.id == a.id) kept

select_all : (p : Action → Bool) (xs : List Action) → All (λ a. p a ≡ true) xs → select p xs ≡ xs
select_all p [] h = refl
select_all p (x ∷ xs) h = rw (h.0, select_all p xs h.1) refl

refs_of-kept : (xs : List Action) → All (λ a. is_kept (refs_of xs) a ≡ true) xs
refs_of-kept [] = tt
refs_of-kept (x ∷ xs) = (
  ground (arith, ==_refl x.id),
  All-map (λ a. is_kept (refs_of xs) a ≡ true) (λ a. is_kept (refs_of (x ∷ xs)) a ≡ true)
      (λ a h. ground (arith, h)) xs (refs_of-kept xs),
)

-- A script that hands its references back unchanged keeps every action, if the ids of the actions
-- can be read back from their texts.
pub filter_actions-refs_of :
    (vm : Vm) (actions : List Action)
    → All (IsReadable vm) actions
    → filter_actions actions (parse_refs vm (refs_for_js vm (refs_of actions))) ≡ actions
unfolding filter_actions
filter_actions-refs_of vm actions h =
    rw (parse_refs-refs_of vm actions h)
      (select_all (is_kept (refs_of actions)) actions (refs_of-kept actions))
