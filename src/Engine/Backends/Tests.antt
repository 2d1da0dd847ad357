-- ===== src/Engine/Backends/Tests.antt =====
-- The backends, at a concrete configuration and a server that is up at the tick 4.
use na_ai.Base.{
  ℕ, ◌+◌, String, ◌≡◌, refl, none, some, [], ◌∷◌, ltb, arith, if◌then◌else◌, true, false,
}
use na_ai.Base.Dict.{Dict, lookup, or_of}
use na_ai.Base.Result.{ok, err}
use na_ai.Engine.Config.{EngineConfig, valued, enabled}
use na_ai.Engine.Backends.{
  extra_flags, dashed, vllm_adapter, vllm_command, base_url, rstripped, unsupported_kv_cache,
  build_env,
}
use na_ai.Engine.Backends.Environment.{device_variable, build_env-lookup}
use na_ai.Engine.Backends.Readiness.{Polling, IsClock, Outcome, wait_ready, wait_ready-Outcome}

abbrev digits : ℕ → String
digits n = "8000"

abbrev config : EngineConfig
config = record {
  model = "m";
  backend_name = "vllm";
  host = "h";
  port = 8000;
  managed = true;
  external_base_url = none;
  quantization = some "fp8";
  kv_cache = none;
  tensor_parallel_size = 1;
  gpu_memory_utilization = none;
  max_model_len = none;
  enable_lora = true;
  max_loras = 8000;
  prefix_caching = false;
  devices = some (0 ∷ []);
  env = ("CUDA_VISIBLE_DEVICES", "2") ∷ [];
  log_dir = none;
  extra_args = ("trust_remote_code", enabled) ∷ ("seed", valued "1") ∷ [];
}

command :
    vllm_command digits config
    ≡ ok (
        "vllm" ∷ "serve" ∷ "m" ∷ "--host" ∷ "h" ∷ "--port" ∷ "8000" ∷ "--quantization" ∷ "fp8"
        ∷ "--kv-cache-dtype" ∷ "fp8" ∷ "--enable-lora" ∷ "--max-loras" ∷ "8000"
        ∷ "--trust-remote-code" ∷ "--seed" ∷ "1" ∷ [])
unfolding vllm_command extra_flags dashed
command = refl

other_cache :
    vllm_command digits (record config { kv_cache = some "radix_attention" })
    ≡ err unsupported_kv_cache
unfolding vllm_command
other_cache = refl

external : base_url digits (record config { external_base_url = some "http://x//" }) ≡ "http://x"
unfolding base_url rstripped
external = refl

abbrev parent : Dict String
parent = ("PATH", "/bin") ∷ []

build_env-lookup_example :
    lookup "CUDA_VISIBLE_DEVICES" (build_env digits (vllm_adapter digits) parent config)
    ≡ or_of (lookup "CUDA_VISIBLE_DEVICES" config.env) (
        or_of (lookup "CUDA_VISIBLE_DEVICES" ((vllm_adapter digits).backend_env config)) (
          or_of
            (device_variable digits config.devices "CUDA_VISIBLE_DEVICES")
            (lookup "CUDA_VISIBLE_DEVICES" parent)))
build_env-lookup_example =
    build_env-lookup digits (vllm_adapter digits) parent config "CUDA_VISIBLE_DEVICES" (refl, tt)
      (refl, tt)

-- A world that is a clock; the server answers 200 from the tick 4 on.
abbrev ticking : Polling ℕ
ticking = record {
  time = λ w. w;
  get_health = λ w. (if ltb w 4 then none else some 200, w);
  pause = λ n w. w + n;
}

ticking-IsClock : IsClock ticking
ticking-IsClock = record { health_later = λ w. omega arith; pause_later = λ n w. omega arith }

wait_ready-Outcome_example : Outcome ticking (0 + 9) (wait_ready ticking 9 2 0)
wait_ready-Outcome_example = wait_ready-Outcome ticking 9 2 0 ticking-IsClock (omega arith)

ready_at_four : wait_ready ticking 9 2 0 ≡ (some true, 4)
unfolding wait_ready
ready_at_four = refl

too_late : wait_ready ticking 3 2 0 ≡ (some false, 4)
unfolding wait_ready
too_late = refl
