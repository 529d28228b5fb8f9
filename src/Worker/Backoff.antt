-- ===== src/Worker/Backoff.antt =====
-- nextRetryTime: exponential backoff on int64 nanoseconds, with jitter.
pub mod Delays
use nitrohook.Prelude.{
  ℕ, ◌+◌, ◌-◌, ◌*◌, ◌%◌, ◌^◌, Bool, ◌&&◌, Option, none, some, ltb, leb, ◌==◌, if◌then◌else◌,
}
use nitrohook.Model.{Time}
use nitrohook.Io.{Io, ◌>>=◌, call, pure}
use nitrohook.Worker.Env.{Env, Duration, Floats}

abbrev pub int64_mod : ℕ
int64_mod = 2 ^ 64

abbrev pub int64_half : ℕ
int64_half = 2 ^ 63

-- 5*time.Minute
abbrev pub max_delay : Duration
max_delay = 300 * 1000000000

-- a > b, for int64 values a and b with b not negative
abbrev pub exceeds : Duration → Duration → Bool
exceeds a b = ltb a int64_half && ltb b a

-- time.Now().Add(d): a negative duration goes back.
abbrev pub add_duration : Time → Duration → Time
add_duration now d = if ltb d int64_half then now + d else now - (int64_mod - d)

-- time.Duration(math.Pow(2, float64(n-1)))
unfoldable pub power : Duration → ℕ → Duration
power beyond n = if n == 0 then 0 else if leb n 63 then 2 ^ (n - 1) else beyond

-- The product wraps as int64 products do; then the cap.
unfoldable pub delay : Duration → Duration → ℕ → Duration
unfolding power
delay beyond base n =
    let d = (base * power beyond n) % int64_mod in if exceeds d max_delay then max_delay else d

-- time.Duration(float64(delay) * (0.75 + rand.Float64()*0.5)), at the n-th call
unfoldable pub jitter : Floats → ℕ → Duration → Duration
jitter f n d =
    let factor : f.Float = f.add f.three_quarters (f.mul (f.random n) f.half) in
    f.to_duration (f.mul (f.of_duration d) factor)

module _ (env : Env) where
  open env use {worker, host, floats, beyond_int64}

  unfoldable pub next_retry_time : ℕ → Io (Option Time)
  unfolding call pure jitter
  next_retry_time n = if leb worker.max_retries n then pure none else do
    c ← call
    let d = delay beyond_int64 worker.retry_base_delay n
    pure (some (add_duration (host.now c) (jitter floats c d)))
