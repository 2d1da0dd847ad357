-- ===== src/Engine/Client.antt =====
-- The client facade of omniai/engine/engine.py: `_post` behind the retries and the breaker, the
-- payload of `chat`, and the adapter lifecycle. The world `W` is what lies outside the process; what
-- the backend answers to a request is the parameter `send`, and `clock` reads the time.
pub mod Errors
pub mod Lifecycle
pub mod Rollback
mod Tests
use na_ai.Base.{
  ℕ, zero, suc, ◌+◌, ◌-◌, ◌*◌, ◌/◌, ◌%◌, ◌^◌, ◌≤◌, ◌<◌, min, max, String, ◌≡◌, refl, sym, ap, ◌∙◌,
  ◌≢◌, ◌↔◌, ◌⊎◌, inl, inr, Bool, true, false, ◌&&◌, ◌||◌, not, Option, none, some, List, [], ◌∷◌,
  ◌++◌, map, arith, str_eq, eq_iff, eq_refl, ltb, leb, ◌==◌, if◌then◌else◌, leb→le, le→leb,
  Bool-cases, Option-cases, truthy, opt_eq, length, take, drop, filter, last?, length-append,
  length-filter, length-take, All, All-map, All-filter, opt_eq→eq, opt_eq_refl,
}
use na_ai.Base.Dict.{Dict, lookup, contains, insert, remove, values}
use na_ai.Base.Result.{Result, ok, err}
use na_ai.Engine.Breaker
use na_ai.Engine.Breaker.{CircuitBreaker, Outcome}
use na_ai.Engine.Retry.{
  Exn, engine_unavailable, transport_error, request_error, connect_error, read_timeout,
  connect_timeout, remote_protocol_error, pool_timeout, http_status, other_error, assertion_error,
  with_retries,
}
use na_ai.Engine.Registry.{
  AdapterRecord, LoraRegistry, KeyError, not_loaded, register, activate, deactivate, unregister,
  eviction_candidate,
}

pub record ChatMessage : Type 0 where
  pub role : String
  pub content : String

-- The payload of a chat request; what the caller passes by name overrides what `chat` filled in.
pub record ChatPayload : Type 0 where
  pub model : String
  pub messages : List ChatMessage

pub data Request : Type 0 where
  chat_request : ChatPayload → Request
  load_request : String → String → Request
  unload_request : String → Request

pub record ModelEngine : Type 0 where
  pub model : String
  pub retries : ℕ
  pub max_loras : ℕ
  pub system_prompt : Option String
  pub lora : LoraRegistry
  pub breaker : CircuitBreaker
  pub in_flight : ℕ

-- The defaults 0.25 and 4.0 of `with_retries`, in quarters of a second.
abbrev pub base_delay : ℕ
base_delay = 1

abbrev pub max_delay : ℕ
max_delay = 16

-- What the `except` clauses of `_post` make of an exception.
pub translate : Exn → Exn
translate engine_unavailable = engine_unavailable
translate (http_status code) = if ltb code 500 then http_status code else engine_unavailable
translate request_error = request_error
translate other_error = other_error
translate assertion_error = assertion_error
translate _ = engine_unavailable

-- An exception of `fn` as the breaker sees it.
abbrev pub outcome : {A : Type 0} → Result Exn A → Outcome
outcome (ok a) = Outcome.returned
outcome (err e) = Outcome.raised

abbrev pub translated : {A : Type 0} → Result Exn A → Result Exn A
translated (ok a) = ok a
translated (err e) = err (translate e)

-- `self.active_lora or self.config.model`
pub default_model : ModelEngine → String
default_model e = elim e.lora.active [
  | none ↦ e.model
  | some a ↦ if str_eq a "" then e.model else a
]

abbrev pub starts_with_system : List ChatMessage → Bool
starts_with_system [] = false
starts_with_system (m ∷ ms) = str_eq m.role "system"

abbrev pub prompt_text : Option String → String
prompt_text none = ""
prompt_text (some s) = s

pub build_messages : ModelEngine → List ChatMessage → List ChatMessage
build_messages e messages =
    if truthy e.system_prompt && not (starts_with_system messages)
    then (record { role = "system"; content = prompt_text e.system_prompt }) ∷ messages
    else messages

abbrev pub or_else : {A : Type 0} → Option A → A → A
or_else none a = a
or_else (some b) a = b

pub chat_payload : ModelEngine → List ChatMessage → Option String → ChatPayload
unfolding default_model build_messages
chat_payload e messages model_override = record {
  model = or_else model_override (default_model e);
  messages = build_messages e messages;
}

-- `register`, and `activate` if asked for.
pub install : String → String → Bool → ℕ → LoraRegistry → Result KeyError LoraRegistry
install name path active now r =
    let r' = register name path now r in if active then activate name r' else ok r'

-- The engine with the registry that `install` leaves, or with `registered` where it raised.
abbrev pub stored :
    {W : Type 0}
    → Result KeyError LoraRegistry
    → LoraRegistry
    → ModelEngine
    → W
    → Result Exn (Unit {0}) × ModelEngine × W
stored (ok r) registered e w = (ok tt, record e { lora = r }, w)
stored (err x) registered e w = (err other_error, record e { lora = registered }, w)

module _ {W Reply : Type 0} (clock : W → ℕ) (send : Request → W → Result Exn Reply × W) where
  -- `_post`, once a slot of the semaphore is free: `in_flight` is raised while the call runs.
  unfoldable pub post : Request → ModelEngine → W → Result Exn Reply × ModelEngine × W
  unfolding translate
  post req e w =
      let (admitted, b) = Breaker.begin (clock w) e.breaker in
      let busy = e.in_flight + 1 in
      let (r, w', sleeps) = with_retries (send req) e.retries base_delay max_delay w in
      if admitted
      then (
        translated r,
        record e { breaker = Breaker.settle (outcome r) (clock w') b; in_flight = busy - 1 },
        w',
      )
      else (err engine_unavailable, record e { breaker = b; in_flight = busy - 1 }, w)

  unfoldable pub chat :
      List ChatMessage → Option String → ModelEngine → W → Result Exn Reply × ModelEngine × W
  unfolding post chat_payload
  chat messages model_override e w =
      post (chat_request (chat_payload e messages model_override)) e w

  -- What an operation does after its request: nothing if the request raised.
  abbrev pub after :
      Result Exn Reply × ModelEngine × W
      → (ModelEngine → W → Result Exn (Unit {0}) × ModelEngine × W)
      → Result Exn (Unit {0}) × ModelEngine × W
  after (ok a, e, w) k = k e w
  after (err x, e, w) k = (err x, e, w)

  pub unload_lora_adapter : String → ModelEngine → W → Result Exn (Unit {0}) × ModelEngine × W
  unload_lora_adapter name e w =
      after (post (unload_request name) e w)
        λ e' w'. (ok tt, record e' { lora = unregister name e'.lora }, w')

  -- `load_lora_adapter` behind the eviction; the branch for `KeyError` is never taken.
  pub load_into_slot :
      String → String → Bool → ModelEngine → W → Result Exn (Unit {0}) × ModelEngine × W
  load_into_slot name path active e w = after (post (load_request name path) e w) λ e' w'.
      stored (install name path active (clock w') e'.lora) (register name path (clock w') e'.lora)
        e' w'

  abbrev pub then_do :
      Result Exn (Unit {0}) × ModelEngine × W
      → (ModelEngine → W → Result Exn (Unit {0}) × ModelEngine × W)
      → Result Exn (Unit {0}) × ModelEngine × W
  then_do (ok a, e, w) k = k e w
  then_do (err x, e, w) k = (err x, e, w)

  -- The eviction, if one is due, and the load.
  pub load_evicting :
      Option String
      → String
      → String
      → Bool
      → ModelEngine
      → W
      → Result Exn (Unit {0}) × ModelEngine × W
  load_evicting none name path active e w = load_into_slot name path active e w
  load_evicting (some victim) name path active e w =
      then_do (unload_lora_adapter victim e w) (load_into_slot name path active)

  pub load_lora_adapter :
      String → String → Bool → ModelEngine → W → Result Exn (Unit {0}) × ModelEngine × W
  unfolding load_evicting
  load_lora_adapter name path active e w =
      load_evicting (eviction_candidate e.max_loras e.lora) name path active e w

  abbrev pub reapplied : Option AdapterRecord → ModelEngine → W → Result Exn Bool × ModelEngine × W
  reapplied none e w = (err other_error, e, w)
  reapplied (some a) e w =
      let (r, e', w') = post (load_request a.name a.path) e w in
      (elim r [ ok x ↦ ok true | err x ↦ err x ], e', w')

  -- `reapply_active_lora`; a missing record is the `KeyError` of `self.lora.loaded[...]`.
  pub reapply_active_lora : ModelEngine → W → Result Exn Bool × ModelEngine × W
  reapply_active_lora e w = elim e.lora.active [
    | none ↦ (ok false, e, w)
    | some a ↦ reapplied (lookup a e.lora.loaded) e w
  ]

abbrev pub reactivated :
    String → Result KeyError LoraRegistry → Result KeyError (Option String × LoraRegistry)
reactivated target (ok r) = ok (some target, r)
reactivated target (err x) = err x

-- `rollback_lora` on the registry, given its rollback target: the adapter now active, or the
-- `KeyError` of `activate`.
pub rollback_to : Option String → LoraRegistry → Result KeyError (Option String × LoraRegistry)
rollback_to none r = ok (none, deactivate r)
rollback_to (some target) r = reactivated target (activate target r)

pub rollback : LoraRegistry → Result KeyError (Option String × LoraRegistry)
unfolding rollback_to
rollback r = rollback_to r.previous r

-- `activate_lora`
abbrev pub activate_lora : String → ModelEngine → Result KeyError ModelEngine
activate_lora name e = elim (activate name e.lora) [
  | ok r ↦ ok (record e { lora = r })
  | err x ↦ err x
]
