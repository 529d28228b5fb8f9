-- ===== src/Worker/Env.antt =====
-- The fields of a FanoutWorker, and what the worker calls that is not code of the repository.
use nitrohook.Prelude.{ℕ, Bool, true, false, List, [], ◌∷◌}
use nitrohook.Io.{Host, Io, ◌>>◌, pure, Result, ok, err}
use nitrohook.Script.{Vm}
use nitrohook.Dispatch.{Registry}

-- A time.Duration is an int64 number of nanoseconds, kept as its bit pattern below 2 ^ 64.
abbrev pub Duration : Type 0
Duration = ℕ

pub record FanoutWorker : Type 0 where
  pub concurrency : ℕ
  pub max_retries : ℕ
  pub retry_base_delay : Duration
  pub poll_interval : Duration

-- float64 and math/rand/v2: the conversions float64(d) and time.Duration(x), the product and the
-- sum, the literals 0.75 and 0.5, and rand.Float64() at the n-th call.
pub record Floats : Type 1 where
  pub Float : Type 0
  pub of_duration : Duration → Float
  pub to_duration : Float → Duration
  pub mul : Float → Float → Float
  pub add : Float → Float → Float
  pub three_quarters : Float
  pub half : Float
  pub random : ℕ → Float

-- `beyond_int64` is the conversion to an int64 of a float that is too large for it.
pub record Env : Type 1 where
  pub worker : FanoutWorker
  pub host : Host
  pub vm : Vm
  pub registry : Registry
  pub floats : Floats
  pub beyond_int64 : Duration

-- `if err != nil { return }`
abbrev pub or_return : {A : Type 0} → Result A → (A → Io (Unit {0})) → Io (Unit {0})
or_return (ok a) k = k a
or_return (err e) k = pure tt

-- A call whose result is not looked at.
abbrev pub ignore : {A : Type 0} → Io A → Io (Unit {0})
ignore m = do m; pure tt

abbrev pub is_empty : {A : Type 0} → List A → Bool
is_empty [] = true
is_empty (x ∷ xs) = false
