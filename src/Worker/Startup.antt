-- ===== src/Worker/Startup.antt =====
-- New of internal/worker/fanout.go, and the worker that cmd/worker/main.go starts.
use nitrohook.Prelude.{
  ℕ, ◌≡◌, Bool, true, false, refl, ◌||◌, some, [], ◌∷◌, same, eq_iff, All, All-map, arith,
  Bool-cases, inl, inr,
}
use nitrohook.Model.{
  Action, ActionType, action_type_webhook, action_type_javascript, action_type_slack,
  action_type_smtp, action_type_twilio,
}
use nitrohook.Io.{Db, Host}
use nitrohook.Script.{Vm}
use nitrohook.Dispatch
use nitrohook.Dispatch.{Dispatcher, Registry, register, get-register}
use nitrohook.Dispatch.Net.{Net, ℤ, pos, negsuc}
use nitrohook.Dispatch.Webhook.{webhook_dispatcher}
use nitrohook.Dispatch.Javascript.{javascript_dispatcher}
use nitrohook.Dispatch.Slack.{slack_dispatcher}
use nitrohook.Dispatch.Smtp.{smtp_dispatcher}
use nitrohook.Dispatch.Twilio.{twilio_dispatcher}
use nitrohook.Store.Actions.{passes_checks}
use nitrohook.Store.Values.{HasValues}
use nitrohook.Config.{Config, Environment, load}
use nitrohook.Worker.Env.{Env, FanoutWorker, Duration, Floats}

-- The calls of dispatch.Register, one for each type of action.
unfoldable pub register_all : Net → Vm → Registry → Registry
unfolding register
register_all net vm r = register action_type_twilio (twilio_dispatcher net) (
    register action_type_smtp (smtp_dispatcher net) (
      register action_type_slack (slack_dispatcher net) (
        register action_type_javascript (javascript_dispatcher vm)
          (register action_type_webhook (webhook_dispatcher net) r))))

-- A number that is only counted up to and compared with numbers from 1: below 0 it acts as 0.
abbrev pub at_least_zero : ℤ → ℕ
at_least_zero (pos n) = n
at_least_zero (negsuc n) = 0

abbrev pub new_worker : Config → FanoutWorker
new_worker cfg = record {
  concurrency = at_least_zero cfg.worker_concurrency;
  max_retries = at_least_zero cfg.max_retries;
  retry_base_delay = cfg.retry_base_delay;
  poll_interval = cfg.poll_interval;
}

-- What the process is given: `net` is the network through an HTTP client with a timeout.
pub record Process : Type 1 where
  pub environment : Environment
  pub host : Host
  pub vm : Vm
  pub net : Duration → Net
  pub floats : Floats
  pub beyond_int64 : Duration

-- The worker that main starts, with the settings of the environment.
unfoldable pub started : Process → Env
unfolding register_all load
started p =
    let cfg = load p.environment in
    record {
      worker = new_worker cfg;
      host = p.host;
      vm = p.vm;
      registry = register_all (p.net cfg.delivery_timeout) p.vm [];
      floats = p.floats;
      beyond_int64 = p.beyond_int64;
    }

-- The dispatcher that is found for a type.
abbrev pub IsDispatched : Registry → Action → Type 0
IsDispatched registry a = (d : Dispatcher) × (Dispatch.get registry a.type ≡ some d)

module _ (type : ActionType) where
  abbrev Found : Registry → Type 0
  Found r = (e : Dispatcher) × (Dispatch.get r type ≡ some e)

  -- A type is found at its entry, or after it.
  at_entry :
      (key : ActionType) (d : Dispatcher) (r : Registry) (later : Bool)
      → (same type key || later) ≡ true
      → (later ≡ true → Found r)
      → Found ((key, d) ∷ r)
  unfolding Dispatch.get
  at_entry key d r later h k = elim (Bool-cases (same key type)) [
    | inl e ↦ (d, rw e refl)
    | inr e ↦
        let (f, p) = k (ground (arith, eq_iff type key, eq_iff key type)) in (f, rw (e, p) refl)
  ]

module _ (net : Net) (vm : Vm) where
  -- Each type that passes the checks has a dispatcher.
  register_all-IsDispatched :
      (a : Action) → passes_checks a ≡ true → IsDispatched (register_all net vm []) a
  unfolding register_all passes_checks
  register_all-IsDispatched a h = at_entry a.type _ _ _ _ (ground (arith, h)) λ h₁.
      at_entry a.type _ _ _ _ h₁ λ h₂. at_entry a.type _ _ _ _ h₂ λ h₃.
        at_entry a.type _ _ _ (same a.type action_type_twilio) h₃
          λ h₄. at_entry a.type _ _ _ false (ground (arith, h₄)) (λ h₅. cc h₅)

-- A worker that is started has a dispatcher for every action in the tables, if the actions pass the
-- checks of the tables.
pub started-IsDispatched :
    (p : Process) (db : Db) → HasValues db → All (IsDispatched (started p).registry) db.actions
unfolding started
started-IsDispatched p db h =
    All-map _ _
      (λ a q. register_all-IsDispatched (p.net (load p.environment).delivery_timeout) p.vm a q)
      db.actions h.actions
