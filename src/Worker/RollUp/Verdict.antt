-- ===== src/Worker/RollUp/Verdict.antt =====
-- What the loops of rollUpDeliveryStatus compute: the latest attempt of each action, and the
-- verdict over all actions.
use mathlib.Core.Bool.{true≢false}
use nitrohook.Prelude.{
  ℕ, ◌≤◌, ◌<◌, ◌≡◌, refl, ◌≢◌, ◌⊎◌, inl, inr, Bool, true, false, Option, none, some, List, [], ◌∷◌,
  arith, All, Exists, In, leb, leb→le, Bool-cases, Option-cases,
}
use nitrohook.Model.{Uuid, Action, DeliveryAttempt, AttemptStatus}
use nitrohook.Worker.RollUp.{
  Latest, note_attempt, latest_from, latest, Standing, unfinished, succeeded, exhausted,
  status_standing, standing, any_failed,
}

-- No attempt of the action has a number above that of `a`.
abbrev pub Bounds : Uuid → List DeliveryAttempt → DeliveryAttempt → Type 0
Bounds k xs a = All (λ b. b.action_id ≡ k → b.attempt_number ≤ a.attempt_number) xs

-- `a` is an attempt of the action with the highest number.
pub record IsLatest (k : Uuid) (xs : List DeliveryAttempt) (a : DeliveryAttempt) : Type 0 where
  pub member : In a xs
  pub of_action : a.action_id ≡ k
  pub greatest : Bounds k xs a

abbrev pub HasNone : Uuid → List DeliveryAttempt → Type 0
HasNone k xs = All (λ b. b.action_id ≢ k) xs

latest_from-grows :
    (m : Latest) (xs : List DeliveryAttempt) (k : Uuid) (a b : DeliveryAttempt)
    → latest_from m xs k ≡ some a
    → m k ≡ some b
    → b.attempt_number ≤ a.attempt_number
unfolding latest_from
latest_from-grows m [] k a b h e = ground arith
latest_from-grows m (x ∷ xs) k a b h e = ground (
  arith,
  latest_from-grows (note_attempt m x) xs k a b,
  latest_from-grows (note_attempt m x) xs k a x,
)

noted_bound :
    (m : Latest) (x : DeliveryAttempt) (xs : List DeliveryAttempt) (k : Uuid) (a : DeliveryAttempt)
    → latest_from (note_attempt m x) xs k ≡ some a
    → x.action_id ≡ k
    → x.attempt_number ≤ a.attempt_number
noted_bound m x xs k a h e = elim (Option-cases (m k)) [
  | inl new ↦ ground (arith, latest_from-grows (note_attempt m x) xs k a x)
  | inr (p, old) ↦ ground (
    arith,
    latest_from-grows (note_attempt m x) xs k a x,
    latest_from-grows (note_attempt m x) xs k a p,
  )
]

latest_from-Bounds :
    (m : Latest) (xs : List DeliveryAttempt) (k : Uuid) (a : DeliveryAttempt)
    → latest_from m xs k ≡ some a
    → Bounds k xs a
unfolding latest_from
latest_from-Bounds m [] k a h = tt
latest_from-Bounds m (x ∷ xs) k a h =
    (λ e. noted_bound m x xs k a h e, latest_from-Bounds (note_attempt m x) xs k a h)

latest_from-member :
    (m : Latest) (xs : List DeliveryAttempt) (k : Uuid) (a : DeliveryAttempt)
    → latest_from m xs k ≡ some a
    → (In a xs × (a.action_id ≡ k)) ⊎ (m k ≡ some a)
unfolding latest_from
latest_from-member m [] k a h = inr h
latest_from-member m (x ∷ xs) k a h = ground (arith, latest_from-member (note_attempt m x) xs k a)

latest_from-none :
    (m : Latest) (xs : List DeliveryAttempt) (k : Uuid)
    → latest_from m xs k ≡ none
    → (m k ≡ none) × HasNone k xs
unfolding latest_from
latest_from-none m [] k h = (h, tt)
latest_from-none m (x ∷ xs) k h =
    let (e, rest) = latest_from-none (note_attempt m x) xs k h in
    (ground arith, (λ q. ground arith, rest))

latest-IsLatest :
    (xs : List DeliveryAttempt) (k : Uuid) (a : DeliveryAttempt)
    → latest xs k ≡ some a
    → IsLatest k xs a
unfolding latest
latest-IsLatest xs k a h = elim (latest_from-member (λ _. none) xs k a h) [
  | inl (m, e) ↦ record {
    member = m;
    of_action = e;
    greatest = latest_from-Bounds (λ _. none) xs k a h;
  }
  | inr e ↦ cc
]

latest-HasNone : (xs : List DeliveryAttempt) (k : Uuid) → latest xs k ≡ none → HasNone k xs
unfolding latest
latest-HasNone xs k h = (latest_from-none (λ _. none) xs k h).1

-- What the latest attempt of an action says.
module _ (max_retries : ℕ) (xs : List DeliveryAttempt) where
  abbrev pub Succeeded : Action → Type 0
  Succeeded act = (a : DeliveryAttempt) × IsLatest act.id xs a × (a.status ≡ AttemptStatus.success)

  abbrev pub Exhausted : Action → Type 0
  Exhausted act =
      (a : DeliveryAttempt) × IsLatest act.id xs a
      × (a.status ≡ AttemptStatus.failed)
      × (max_retries ≤ a.attempt_number)

  -- No attempt, or one that waits for its outcome or for a retry.
  abbrev pub Unfinished : Action → Type 0
  Unfinished act =
      HasNone act.id xs
      ⊎ ((a : DeliveryAttempt) × IsLatest act.id xs a × (a.status ≡ AttemptStatus.pending))
      ⊎ ((a : DeliveryAttempt) × IsLatest act.id xs a
          × (a.status ≡ AttemptStatus.failed)
          × (a.attempt_number < max_retries))

  abbrev Stands : Standing → Action → Type 0
  Stands unfinished act = Unfinished act
  Stands succeeded act = Succeeded act
  Stands exhausted act = Exhausted act

  status-Stands :
      (act : Action) (a : DeliveryAttempt) (status : AttemptStatus)
      → a.status ≡ status
      → IsLatest act.id xs a
      → Stands (status_standing max_retries a.attempt_number status) act
  status-Stands act a AttemptStatus.pending e l = inr (inl (a, l, e))
  status-Stands act a AttemptStatus.success e l = (a, l, e)
  status-Stands act a AttemptStatus.failed e l =
      elim (Bool-cases (leb max_retries a.attempt_number)) [
        | inl t ↦ rw t (a, l, e, leb→le _ _ t)
        | inr t ↦ rw t (inr (inr (a, l, e, ground arith)))
      ]

  standing-Stands :
      (act : Action) (o : Option DeliveryAttempt)
      → latest xs act.id ≡ o
      → Stands (standing max_retries o) act
  standing-Stands act none e = inl (latest-HasNone xs act.id e)
  standing-Stands act (some a) e = status-Stands act a a.status refl (latest-IsLatest xs act.id a e)

  -- The result of the loop that starts with `failed`.
  abbrev pub Verdict : Bool → Option Bool → List Action → Type 0
  Verdict failed none acts = Exists Unfinished acts
  Verdict failed (some false) acts = (failed ≡ false) × All Succeeded acts
  Verdict failed (some true) acts =
      All (λ act. Succeeded act ⊎ Exhausted act) acts × ((failed ≡ true) ⊎ Exists Exhausted acts)

  cons-Succeeded :
      (failed : Bool) (r : Option Bool) (act : Action) (rest : List Action)
      → Succeeded act
      → Verdict failed r rest
      → Verdict failed r (act ∷ rest)
  cons-Succeeded failed none act rest s v = inr v
  cons-Succeeded failed (some false) act rest s v = (v.0, (s, v.1))
  cons-Succeeded failed (some true) act rest s v =
      ((inl s, v.0), elim v.1 [ inl e ↦ inl e | inr x ↦ inr (inr x) ])

  cons-Exhausted :
      (failed : Bool) (r : Option Bool) (act : Action) (rest : List Action)
      → Exhausted act
      → Verdict true r rest
      → Verdict failed r (act ∷ rest)
  cons-Exhausted failed none act rest s v = inr v
  cons-Exhausted failed (some false) act rest s v = absurd (true≢false v.0)
  cons-Exhausted failed (some true) act rest s v = ((inr s, v.0), inr (inl s))

  pub any_failed-Verdict :
      (failed : Bool) (acts : List Action)
      → Verdict failed (any_failed max_retries (latest xs) failed acts) acts
  unfolding any_failed
  any_failed-Verdict false [] = (refl, tt)
  any_failed-Verdict true [] = (tt, inl refl)
  any_failed-Verdict failed (act ∷ rest) =
      step (standing max_retries (latest xs act.id)) (standing-Stands act _ refl)
        (any_failed-Verdict failed rest) (any_failed-Verdict true rest)
    where
      step :
          (s : Standing)
          → Stands s act
          → Verdict failed (any_failed max_retries (latest xs) failed rest) rest
          → Verdict true (any_failed max_retries (latest xs) true rest) rest
          → Verdict failed
              (elim s [
                | unfinished ↦ none
                | succeeded ↦ any_failed max_retries (latest xs) failed rest
                | exhausted ↦ any_failed max_retries (latest xs) true rest
              ])
              (act ∷ rest)
      step unfinished s v w = inl s
      step succeeded s v w = cons-Succeeded failed _ act rest s v
      step exhausted s v w = cons-Exhausted failed _ act rest s w

  -- The three results of the loop over the actions.
  abbrev pub Settled : Option Bool → List Action → Type 0
  Settled r acts = Verdict false r acts
