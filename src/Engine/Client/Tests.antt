-- ===== src/Engine/Client/Tests.antt =====
-- The theorems on the client facade, at concrete engines and backends.
use na_ai.Base.{ℕ, ◌+◌, String, ◌≡◌, refl, true, false, none, some, [], ◌∷◌, arith, length}
use na_ai.Base.Result.{Result, ok, err}
use na_ai.Engine.Registry.{AdapterRecord, LoraRegistry, register, activate, eviction_candidate}
use na_ai.Engine.Breaker
use na_ai.Engine.Breaker.{CircuitBreaker, Outcome, BreakerState, closed, open_state, half_open}
use na_ai.Engine.Retry.{Exn, engine_unavailable, connect_error, http_status, with_retries}
use na_ai.Engine.Client.{
  Request, unload_request, ModelEngine, post, install, load_into_slot, load_lora_adapter, rollback,
}
use na_ai.Engine.Registry.Invariant.{IsConsistent}
use na_ai.Engine.Client.Errors.{is_reported, post_errors, post-open, client_error_opens}
use na_ai.Engine.Client.Lifecycle.{LoadEnds, load_lora_adapter_ends}
use na_ai.Engine.Client.Rollback.{IsSwapped, rollback_twice}

-- A backend that takes every request, one that refuses every request, and one that cannot be reached;
-- the world is its clock.
abbrev healthy : Request → ℕ → Result Exn String × ℕ
healthy req w = (ok "done", w + 1)

abbrev refusing : Request → ℕ → Result Exn String × ℕ
refusing req w = (err (http_status 400), w + 1)

abbrev unreachable : Request → ℕ → Result Exn String × ℕ
unreachable req w = (err connect_error, w + 1)

abbrev clock : ℕ → ℕ
clock w = w

abbrev adapter_at : String → ℕ → AdapterRecord
adapter_at name t = record { name = name; path = "/adapters"; loaded_at = t }

abbrev two_adapters : LoraRegistry
two_adapters = record {
  persistent = false;
  file = none;
  loaded = ("a", adapter_at "a" 1) ∷ ("b", adapter_at "b" 2) ∷ [];
  active = some "a";
  previous = some "b";
}

abbrev engine : ModelEngine
engine = record {
  model = "base";
  retries = 3;
  max_loras = 2;
  system_prompt = some "be brief";
  lora = two_adapters;
  breaker = Breaker.new 1 30;
  in_flight = 0;
}

abbrev down : ModelEngine
down = record engine { breaker = record (Breaker.new 1 30) { state = open_state; opened_at = 5 } }

two_adapters-IsConsistent : IsConsistent two_adapters
two_adapters-IsConsistent = ground arith

unreachable_run : (post clock unreachable (unload_request "a") engine 0).0 ≡ err engine_unavailable
unfolding post Breaker.begin Breaker.settle with_retries
unreachable_run = refl

post_errors_example :
    (is_reported engine_unavailable ≡ true)
    × ((post clock unreachable (unload_request "a") engine 0).1.in_flight ≡ 0)
    × ((post clock unreachable (unload_request "a") engine 0).1.lora ≡ two_adapters)
post_errors_example =
    post_errors clock unreachable (unload_request "a") engine 0 engine_unavailable unreachable_run

post-open_example :
    post clock healthy (unload_request "a") down 9 ≡ (err engine_unavailable, down, 9)
post-open_example = post-open clock healthy (unload_request "a") down 9 refl (omega arith)

client_error_opens_example :
    ((post clock refusing (unload_request "a") engine 0).0 ≡ err (http_status 400))
    × ((post clock refusing (unload_request "a") engine 0).1.breaker.state ≡ open_state)
    × ((post clock refusing (unload_request "a") engine 0).2 ≡ 1)
client_error_opens_example =
    client_error_opens clock refusing (unload_request "a") engine 0 400 1 refl (omega arith)
      (omega arith) refl refl

load_lora_adapter_ends_example :
    LoadEnds clock "c" "/c" true engine (load_lora_adapter clock healthy "c" "/c" true engine 0)
load_lora_adapter_ends_example =
    load_lora_adapter_ends clock healthy "c" "/c" true engine 0 two_adapters-IsConsistent

-- With two slots, both protected, a third adapter is loaded beside them.
two_slots_overfull :
    length (load_lora_adapter clock healthy "c" "/c" false engine 0).1.lora.loaded ≡ 3
unfolding load_lora_adapter load_into_slot post install Breaker.begin Breaker.settle with_retries
    register activate eviction_candidate
two_slots_overfull = refl

rollback_twice_example :
    (r' r'' : LoraRegistry) × (rollback two_adapters ≡ ok (some "b", r'))
    × IsSwapped two_adapters r'
    × (rollback r' ≡ ok (some "a", r''))
    × (r''.active ≡ some "a")
    × (r''.previous ≡ some "b")
    × (r''.loaded ≡ two_adapters.loaded)
rollback_twice_example = rollback_twice two_adapters two_adapters-IsConsistent
