-- ===== src/Worker/Backoff/Delays.antt =====
-- The delays of nextRetryTime, while the int64 product does not overflow and when it does.
use Prim.Native.Nat.{min}
use nitrohook.Prelude.{ℕ, ◌+◌, ◌-◌, ◌*◌, ◌/◌, ◌^◌, ◌≤◌, ◌<◌, ◌≡◌, none, arith}
use nitrohook.Io.{World, pure}
use nitrohook.Worker.Env.{Env, Duration, Floats}
use nitrohook.Worker.Backoff.{int64_half, int64_mod, power, delay, next_retry_time}

-- In nanoseconds.
abbrev pub five_minutes : Duration
five_minutes = 5 * 60 * 1000000000

power-eq : (beyond : Duration) (n : ℕ) → 0 < n → n ≤ 63 → power beyond n ≡ 2 ^ (n - 1)
unfolding power
power-eq beyond n pos small = ground arith

-- For an attempt number from 1 to 63 and a product within int64, the delay is the base times
-- 2 ^ (n - 1), and at most five minutes.
pub delay-eq :
    (beyond base : Duration) (n : ℕ)
    → 0 < n
    → n ≤ 63
    → base * 2 ^ (n - 1) < int64_half
    → delay beyond base n ≡ min (base * 2 ^ (n - 1)) five_minutes
unfolding delay
delay-eq beyond base n pos small fits = rw (power-eq beyond n pos small) (ground arith)

-- A product from 2 ^ 63 up to 2 ^ 64 is a negative duration, which the cap lets through.
pub delay-overflows :
    (beyond base : Duration) (n : ℕ)
    → 0 < n
    → n ≤ 63
    → int64_half ≤ base * 2 ^ (n - 1)
    → base * 2 ^ (n - 1) < int64_mod
    → delay beyond base n ≡ base * 2 ^ (n - 1)
unfolding delay
delay-overflows beyond base n pos small over fits = rw (power-eq beyond n pos small) (ground arith)

-- What IEEE 754 and Go say of these floats: quarters below 2 ^ 53 / 4 are floats, sums and products
-- of them are exact where they are quarters again, sums and products of floats that are not
-- negative are monotone, a conversion cuts off the fraction, and Float64 gives floats from 0 to 1.
pub record IsIeee (f : Floats) : Type 1 where
  pub le : f.Float → f.Float → Type 0
  pub le_refl : (x : f.Float) → le x x
  pub le_trans : (x y z : f.Float) → le x y → le y z → le x z
  pub quarters : ℕ → f.Float
  pub three_quarters_eq : f.three_quarters ≡ quarters 3
  pub half_eq : f.half ≡ quarters 2
  pub of_duration_eq : (d : ℕ) → 4 * d < 2 ^ 53 → f.of_duration d ≡ quarters (4 * d)
  pub random_low : (n : ℕ) → le (quarters 0) (f.random n)
  pub random_high : (n : ℕ) → le (f.random n) (quarters 4)
  pub add_eq : (j k : ℕ) → j + k < 2 ^ 53 → f.add (quarters j) (quarters k) ≡ quarters (j + k)
  pub mul_eq :
      (j k m : ℕ) → 4 * m ≡ j * k → m < 2 ^ 53 → f.mul (quarters j) (quarters k) ≡ quarters m
  pub add_mono : (x y u v : f.Float) → le x y → le u v → le (f.add x u) (f.add y v)
  pub mul_mono :
      (x y u v : f.Float)
      → le (quarters 0) x
      → le (quarters 0) u
      → le x y
      → le u v
      → le (f.mul x u) (f.mul y v)
  pub cut_low : (j : ℕ) (x : f.Float) → j < 2 ^ 53 → le (quarters j) x → j / 4 ≤ f.to_duration x
  pub cut_high : (k : ℕ) (x : f.Float) → k < 2 ^ 53 → le x (quarters k) → f.to_duration x ≤ k / 4
  pub quarters_mono : (j k : ℕ) → j ≤ k → k < 2 ^ 53 → le (quarters j) (quarters k)

module _ (f : Floats) (ieee : IsIeee f) where
  open ieee use {
    le, le_refl, le_trans, quarters, three_quarters_eq, half_eq, of_duration_eq, random_low,
    random_high, add_eq, mul_eq, add_mono, mul_mono, cut_low, cut_high, quarters_mono,
  }

  -- The factor lies from 3/4 to 5/4.
  abbrev factor : ℕ → f.Float
  factor n = f.add (quarters 3) (f.mul (f.random n) (quarters 2))

module _ (env : Env) (n : ℕ) (w : World) where
  abbrev pub due : Duration
  due = min (env.worker.retry_base_delay * 2 ^ (n - 1)) five_minutes

  -- From the limit on there is no next retry.
  pub next_retry_time-none : env.worker.max_retries ≤ n → (next_retry_time env n w).0 ≡ none
  unfolding next_retry_time pure
  next_retry_time-none over = ground arith
