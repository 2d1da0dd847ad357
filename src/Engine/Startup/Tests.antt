-- ===== src/Engine/Startup/Tests.antt =====
-- Starting and stopping, on an operating system that counts what it is asked.
use na_ai.Base.{Bool, ℕ, ◌+◌, ◌<◌, String, ◌≡◌, refl, ◌⊎◌, none, some, List, [], ◌∷◌, true, false}
use na_ai.Base.Result.{Result, ok, err}
use na_ai.Engine.Config.{EngineConfig}
use na_ai.Engine.Backends.{vllm_adapter}
use na_ai.Engine.Backends.Process.{OperatingSystem, OsError, exited}
use na_ai.Engine.Startup.{Owned, content, start, warmup}
use na_ai.Engine.Startup.Ownership.{Owns, start-Owns, warmup_fails}
use na_ai.Engine.Retry.{
  Exn, engine_unavailable, connect_error, http_status, request_error, with_retries,
}
use na_ai.Engine.Breaker as Breaker
use na_ai.Engine.Client.{ModelEngine, ChatMessage, Request, post, chat}
use na_ai.Engine.Registry.{LoraRegistry}

abbrev digits : ℕ → String
digits n = "8000"

abbrev config : EngineConfig
config = record {
  model = "m";
  backend_name = "vllm";
  host = "h";
  port = 8000;
  managed = true;
  external_base_url = none;
  quantization = none;
  kv_cache = none;
  tensor_parallel_size = 1;
  gpu_memory_utilization = none;
  max_model_len = none;
  enable_lora = true;
  max_loras = 4;
  prefix_caching = true;
  devices = none;
  env = [];
  log_dir = some "logs";
  extra_args = [];
}

abbrev counting : OperatingSystem ℕ ℕ
counting = record {
  open_log = λ dir c w. (ok tt, w + 1);
  close_log = λ w. w + 1;
  launch = λ command env to_log w. (ok 7, w + 1);
  signal = λ s p w. (ok tt, w + 1);
  wait = λ n p w. (exited, w + 1);
  polls_none = λ p w. true;
}

abbrev idle : Owned ℕ
idle = record {
  server = record { process = none; log_open = false };
  supervisor = none;
  client_open = true;
}

-- A server that does not get ready in time.
abbrev never_ready : ℕ → Result OsError Bool × ℕ
never_ready w = (ok false, w)

start-Owns_example :
    Owns counting digits
      (vllm_adapter digits)
      []
      config
      never_ready
      5
      1
      true
      true
      (start counting digits (vllm_adapter digits) [] config never_ready 5 1 true true idle 0)
start-Owns_example =
    start-Owns counting digits (vllm_adapter digits) [] config never_ready 5 1 true true idle 0 refl
      refl refl

abbrev unreachable : Request → ℕ → Result Exn String × ℕ
unreachable req w = (err connect_error, w + 1)

abbrev clock : ℕ → ℕ
clock w = w

abbrev no_adapters : LoraRegistry
no_adapters = record {
  persistent = false;
  file = none;
  loaded = [];
  active = none;
  previous = none;
}

abbrev engine : ModelEngine
engine = record {
  model = "base";
  retries = 3;
  max_loras = 2;
  system_prompt = none;
  lora = no_adapters;
  breaker = Breaker.new 5 30;
  in_flight = 0;
}

abbrev ping : List ChatMessage
ping = record { role = "user"; content = "ping" } ∷ []

unreachable-chat : (chat clock unreachable ping none engine 0).0 ≡ err engine_unavailable
unfolding chat post Breaker.begin Breaker.settle with_retries
unreachable-chat = refl

warmup_fails_example :
    ((warmup clock unreachable content engine 0).0 ≡ err engine_unavailable)
    ⊎ (((warmup clock unreachable content engine 0).0 ≡ ok false)
        × (((code : ℕ) × (engine_unavailable ≡ http_status code) × (code < 500))
            ⊎ (engine_unavailable ≡ request_error)))
warmup_fails_example =
    warmup_fails clock unreachable content engine 0 engine_unavailable unreachable-chat

-- A backend that cannot be reached makes the warm-up raise.
warmup-raises : (warmup clock unreachable content engine 0).0 ≡ err engine_unavailable
unfolding warmup chat post Breaker.begin Breaker.settle with_retries
warmup-raises = refl
