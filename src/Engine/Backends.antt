-- ===== src/Engine/Backends.antt =====
-- The backend adapters of omniai/engine/backends.py, and base_url of omniai/engine/config.py.
-- `show` is Python's `str` of an integer.
pub mod Environment
pub mod Process
pub mod Readiness
mod Tests
use na_ai.Base.{
  ℕ, String, Bool, true, false, ◌&&◌, ◌||◌, not, Option, none, some, List, [], ◌∷◌, ◌++◌, map,
  arith, str_eq, ltb, leb, ◌==◌, if◌then◌else◌, truthy, length,
}
use na_ai.Base.Dict.{Dict, lookup, insert, updated}
use na_ai.Engine.Config.{Argument, enabled, valued, EngineConfig}
use na_ai.Base.Result.{Result, ok, err}
use Prim.Native.String.{◌++◌ as str_append}
use Prim.Native.Char.{code}

-- `text.rstrip("/")`
pub rstripped : String → String
rstripped String.[] = ""
rstripped (String.◌∷◌ c s) =
    let rest = rstripped s in if str_eq rest "" && (code c == b'/') then "" else String.◌∷◌ c rest

-- `key.replace("_", "-")`
pub dashed : String → String
dashed String.[] = ""
dashed (String.◌∷◌ c s) =
    let rest = dashed s in if code c == b'_' then String.◌∷◌ "-" rest else String.◌∷◌ c rest

abbrev pub when : Bool → List String → List String
when b flags = if b then flags else []

abbrev pub option_flag : String → Option String → List String
option_flag name none = []
option_flag name (some s) = name ∷ s ∷ []

abbrev pub or_empty_text : Option String → String
or_empty_text none = ""
or_empty_text (some s) = s

-- `if cfg.quantization:`
abbrev pub quantization_flags : Option String → List String
quantization_flags q = when (truthy q) ("--quantization" ∷ or_empty_text q ∷ [])

-- `_extra_flags`
pub extra_flags : Dict Argument → List String
unfolding dashed
extra_flags [] = []
extra_flags ((key, enabled) ∷ d) = str_append "--" (dashed key) ∷ extra_flags d
extra_flags ((key, valued s) ∷ d) = str_append "--" (dashed key) ∷ s ∷ extra_flags d

pub data BackendError : Type 0 where
  unsupported_kv_cache not_implemented unknown_backend : BackendError

-- What a class of adapters brings.
pub record AdapterClass : Type 0 where
  pub build_command : EngineConfig → Result BackendError (List String)
  pub backend_env : EngineConfig → Dict String
  pub lora_load_endpoint : Result BackendError String
  pub lora_load_payload : String → String → Dict String
  pub lora_unload_endpoint : Result BackendError String
  pub lora_unload_payload : String → Dict String

abbrev pub paged : Option String → Bool
paged none = true
paged (some s) = str_eq s "paged_attention"

abbrev pub radix_disabled : Option String → Bool
radix_disabled none = false
radix_disabled (some s) = str_eq s "disable_radix"

abbrev pub fp8 : Option String → Bool
fp8 none = false
fp8 (some s) = str_eq s "fp8"

abbrev pub named_adapter : String → String → Dict String
named_adapter name path = ("lora_name", name) ∷ ("lora_path", path) ∷ []

module _ (show : ℕ → String) where
  -- `base_url`
  unfoldable pub base_url : EngineConfig → String
  unfolding rstripped
  base_url c =
      if truthy c.external_base_url
      then rstripped (or_empty_text c.external_base_url)
      else str_append "http://" (str_append c.host (str_append ":" (show c.port)))

  abbrev pub number_flag : String → Option ℕ → List String
  number_flag name none = []
  number_flag name (some n) = name ∷ show n ∷ []

  -- `VLLMAdapter.build_command`
  unfoldable pub vllm_command : EngineConfig → Result BackendError (List String)
  unfolding extra_flags
  vllm_command c =
      if not (paged c.kv_cache)
      then err unsupported_kv_cache
      else ok (
          ("vllm" ∷ "serve" ∷ c.model ∷ "--host" ∷ c.host ∷ "--port" ∷ show c.port ∷ [])
          ++ (quantization_flags c.quantization
              ++ (when (fp8 c.quantization) ("--kv-cache-dtype" ∷ "fp8" ∷ [])
                  ++ (when c.prefix_caching ("--enable-prefix-caching" ∷ [])
                      ++ (when (ltb 1 c.tensor_parallel_size)
                            ("--tensor-parallel-size" ∷ show c.tensor_parallel_size ∷ [])
                          ++ (option_flag "--gpu-memory-utilization" c.gpu_memory_utilization
                              ++ (number_flag "--max-model-len" c.max_model_len
                                  ++ (when c.enable_lora
                                        ("--enable-lora" ∷ "--max-loras" ∷ show c.max_loras ∷ [])
                                      ++ extra_flags c.extra_args))))))))

  abbrev pub vllm_env : EngineConfig → Dict String
  vllm_env c = if c.enable_lora then ("VLLM_ALLOW_RUNTIME_LORA_UPDATING", "True") ∷ [] else []

  abbrev pub vllm_adapter : AdapterClass
  vllm_adapter = record {
    build_command = vllm_command;
    backend_env = vllm_env;
    lora_load_endpoint = ok "/v1/load_lora_adapter";
    lora_load_payload = named_adapter;
    lora_unload_endpoint = ok "/v1/unload_lora_adapter";
    lora_unload_payload = λ name. (("lora_name", name) ∷ []);
  }

  -- `SGLangAdapter.build_command`, where `executable` is `sys.executable`.
  unfoldable pub sglang_command : String → EngineConfig → Result BackendError (List String)
  unfolding extra_flags
  sglang_command executable c = ok (
      (executable
        ∷ "-m"
        ∷ "sglang.launch_server"
        ∷ "--model-path"
        ∷ c.model
        ∷ "--host"
        ∷ c.host
        ∷ "--port"
        ∷ show c.port
        ∷ [])
      ++ (quantization_flags c.quantization
          ++ (when (radix_disabled c.kv_cache || not c.prefix_caching)
                ("--disable-radix-cache" ∷ [])
              ++ (when (ltb 1 c.tensor_parallel_size) ("--tp" ∷ show c.tensor_parallel_size ∷ [])
                  ++ (option_flag "--mem-fraction-static" c.gpu_memory_utilization
                      ++ (number_flag "--context-length" c.max_model_len
                          ++ (when c.enable_lora
                                ("--enable-lora" ∷ "--max-loras-per-batch" ∷ show c.max_loras ∷ [])
                              ++ extra_flags c.extra_args)))))))

  abbrev pub sglang_adapter : String → AdapterClass
  sglang_adapter executable = record {
    build_command = sglang_command executable;
    backend_env = λ c. [];
    lora_load_endpoint = ok "/load_lora_adapter";
    lora_load_payload = named_adapter;
    lora_unload_endpoint = ok "/unload_lora_adapter";
    lora_unload_payload = λ name. (("lora_name", name) ∷ []);
  }

  abbrev pub ollama_adapter : AdapterClass
  ollama_adapter = record {
    build_command = λ c. ok ("ollama" ∷ "serve" ∷ []);
    backend_env = λ c. (("OLLAMA_HOST", str_append "127.0.0.1:" (show c.port)) ∷ []);
    lora_load_endpoint = err not_implemented;
    lora_load_payload = λ name path. [];
    lora_unload_endpoint = err not_implemented;
    lora_unload_payload = λ name. [];
  }

  -- `ADAPTERS`; `register_backend` inserts into it.
  abbrev pub adapters : String → Dict AdapterClass
  adapters executable =
      ("vllm", vllm_adapter)
      ∷ ("sglang", sglang_adapter executable)
      ∷ ("ollama", ollama_adapter)
      ∷ []

  -- `",".join(str(d) for d in self.config.devices)`
  abbrev pub comma_joined : List ℕ → String
  comma_joined [] = ""
  comma_joined (d ∷ []) = show d
  comma_joined (d ∷ (e ∷ ds)) = str_append (show d) (str_append "," (comma_joined (e ∷ ds)))

  -- The environment with the placement of the devices.
  abbrev pub placed : Option (List ℕ) → Dict String → Dict String
  placed none env = env
  placed (some ds) env = insert "CUDA_VISIBLE_DEVICES" (comma_joined ds) env

  -- `build_env` in the environment `environ` of the parent.
  unfoldable pub build_env : AdapterClass → Dict String → EngineConfig → Dict String
  build_env a environ c = updated (updated (placed c.devices environ) (a.backend_env c)) c.env

pub register_backend : String → AdapterClass → Dict AdapterClass → Dict AdapterClass
register_backend name a d = insert name a d

abbrev pub chosen : Option AdapterClass → Result BackendError AdapterClass
chosen none = err unknown_backend
chosen (some a) = ok a

-- The adapter that `ModelEngine.create` chooses.
pub create : Dict AdapterClass → EngineConfig → Result BackendError AdapterClass
create d c = chosen (lookup c.backend_name d)
