-- ===== src/Tests/Setup.antt =====
-- Concrete values for what the code calls: a host whose calls succeed, an engine whose scripts
-- return their event's payload, and a dispatcher that answers by the URL.
use nitrohook.Prelude.{
  arith, ℕ, ◌+◌, ◌*◌, ◌/◌, String, refl, true, false, none, some, [], ◌∷◌, same, if◌then◌else◌,
}
use nitrohook.Model.{
  Source, Action, Delivery, DeliveryAttempt, DeliveryStatus, processing, AttemptStatus,
  action_type_webhook,
}
use nitrohook.Io.{World, Host, Io}
use nitrohook.Script.{Vm, returned, raised}
use nitrohook.Dispatch
use nitrohook.Dispatch.{Dispatcher, Registry}
use nitrohook.Worker.Env.{Env, Floats}

abbrev pub host : Host
host = record {
  fault = λ _. none;
  gen_uuid = λ n. n + 1000;
  now = λ n. n + 5;
  jsonb = some;
  uuid_string = λ _. "delivery";
  uuid_parse = λ s. if same s "delivery" then some 7 else none;
}

abbrev pub vm : Vm
vm = record {
  Object = String;
  Any = String;
  Machine = String;
  Value = String;
  Function = String;
  run_string = λ _ s. if same s "bad" then raised "SyntaxError" else returned s;
  get = λ m name. some m;
  assert_function = some;
  invoke = λ m f e. returned (if same f "drop" then none else some e.payload);
  marshal_value = some;
  unmarshal_result = λ s. some (record { payload = s; headers = []; actions = [] });
  sprint = λ v. v;
  unmarshal_object = some;
  unmarshal_headers = λ _. some [];
  marshal_object = some;
  marshal_headers = λ _. some "{}";
  object_error = λ _. "bad object";
  headers_error = λ _. "bad headers";
  error_text = λ _. "script error";
  uuid_string = λ _. "action";
  uuid_parse = λ s. if same s "action" then some 2 else none;
}

abbrev pub answer : Action → Io Dispatch.Result
answer a w = (
  record {
    success = elim a.target_url [ none ↦ false | some u ↦ same u "up" ];
    response_status = some 200;
    response_body = none;
    error_message = none;
  },
  w,
)

abbrev pub answering : Dispatcher
answering = record {
  validate = λ n a. returned none;
  dispatch = λ a id payload headers. answer a;
  dispatch-db = λ a id payload headers w. refl;
  dispatch-calls = λ a id payload headers w. omega arith;
}

abbrev pub registry : Registry
registry = (action_type_webhook, answering) ∷ []

-- Floats as whole quarters, where a product is rounded down; the random number is 1/2.
abbrev pub fixed_point : Floats
fixed_point = record {
  Float = ℕ;
  of_duration = λ d. 4 * d;
  to_duration = λ x. x / 4;
  mul = λ a b. a * b / 4;
  add = λ a b. a + b;
  three_quarters = 3;
  half = 2;
  random = λ n. 2;
}

abbrev pub env : Env
env = record {
  worker = record {
    concurrency = 4;
    max_retries = 3;
    retry_base_delay = 5000000000;
    poll_interval = 30000000000;
  };
  host = host;
  vm = vm;
  registry = registry;
  floats = fixed_point;
  beyond_int64 = 9223372036854775808;
}

abbrev pub source : Source
source = record {
  id = 1;
  name = "Orders";
  slug = "orders";
  mode = "active";
  script_body = none;
  created_at = 0;
  updated_at = 0;
}

abbrev pub action : String → Action
action url = record {
  id = 2;
  source_id = 1;
  type = action_type_webhook;
  target_url = some url;
  script_body = none;
  signing_secret = none;
  config = none;
  transform_script = none;
  is_active = true;
  created_at = 0;
  updated_at = 0;
}

abbrev pub delivery : DeliveryStatus → Delivery
delivery status = record {
  id = 7;
  source_id = 1;
  idempotency_key = "k";
  headers = "{}";
  payload = "{}";
  status = status;
  received_at = 0;
  transformed_payload = none;
  transformed_headers = none;
}

-- The source, the action at the URL, and the delivery.
abbrev pub world_of : Source → String → DeliveryStatus → World
world_of src url status = record {
  db = record {
    sources = src ∷ [];
    actions = action url ∷ [];
    deliveries = delivery status ∷ [];
    attempts = [];
  };
  published = [];
  outbox = [];
  calls = 0;
}

abbrev pub world : String → DeliveryStatus → World
world = world_of source

abbrev pub recording : Source
recording = record source { mode = "record" }

abbrev pub scripted : String → Source
scripted body = record source { script_body = some body }

-- A first attempt that has failed.
abbrev pub first_try : DeliveryAttempt
first_try = record {
  id = 9;
  delivery_id = 7;
  action_id = 2;
  attempt_number = 1;
  status = AttemptStatus.failed;
  response_status = some 500;
  response_body = none;
  error_message = some "HTTP 500";
  next_retry_at = some 3;
  created_at = 0;
}

-- The world with this attempt.
abbrev pub tried : World
tried = record (world "down" processing) {
  db = record (world "down" processing).db { attempts = first_try ∷ [] };
}
