-- ===== src/Engine/Config.antt =====
-- The configuration of a backend in omniai/engine/config.py. A fraction is kept as its text; an
-- integer is not negative.
use na_ai.Base.{ℕ, String, Bool, true, Option, none, some, List, ltb, leb, if◌then◌else◌, length}
use na_ai.Base.Dict.{Dict}
use na_ai.Base.Result.{Result, ok, err}

-- A value of `extra_args`: `True`, or the `str` of another one.
pub data Argument : Type 0 where
  enabled : Argument
  valued : String → Argument

pub record EngineConfig : Type 0 where
  pub model : String
  pub backend_name : String
  pub host : String
  pub port : ℕ
  pub managed : Bool
  pub external_base_url : Option String
  pub quantization : Option String
  pub kv_cache : Option String
  pub tensor_parallel_size : ℕ
  pub gpu_memory_utilization : Option String
  pub max_model_len : Option ℕ
  pub enable_lora : Bool
  pub max_loras : ℕ
  pub prefix_caching : Bool
  pub devices : Option (List ℕ)
  pub env : Dict String
  pub log_dir : Option String
  pub extra_args : Dict Argument

pub data ConfigError : Type 0 where
  not_positive too_few_devices : ConfigError

abbrev pub covers : Option (List ℕ) → ℕ → Bool
covers none n = true
covers (some ds) n = leb n (length ds)

-- `_positive_tp`, then `_devices_cover_tp`.
pub validated : EngineConfig → Result ConfigError EngineConfig
validated c =
    if ltb c.tensor_parallel_size 1
    then err not_positive
    else (if covers c.devices c.tensor_parallel_size then ok c else err too_few_devices)
