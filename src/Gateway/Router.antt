-- ===== src/Gateway/Router.antt =====
-- The message pipeline of omniai/gateway/router.py. Interceptors, observers and the handler are the
-- caller's: they act on a world `W` and may raise.
pub mod Audit
pub mod Sockets
mod Tests
use na_ai.Base.{
  ℕ, String, Bool, true, false, Option, none, some, List, [], ◌∷◌, ◌++◌, if◌then◌else◌, not,
}
use na_ai.Base.Result.{Result, ok, err}
use na_ai.Protocol.{OmniMessage}
use na_ai.Gateway.Adapters.{Invalid, RestPayload, RestResponse, rest_from_omni}
use na_ai.Engine.Breaker.{BreakerState, is_open}
use Prim.Native.String.{◌++◌ as str_append}

-- What a message may raise on its way: a guardrail's reason, an engine that is down, a body that is
-- too long, and any other exception.
pub data Failure : Type 0 where
  guardrail : String → Failure
  engine_unavailable : String → Failure
  body_too_large : String → Failure
  other_failure : Failure

module _ (W : Type 0) where
  abbrev pub Interceptor : Type 0
  Interceptor = OmniMessage → W → Result Failure OmniMessage × W

  abbrev pub Observer : Type 0
  Observer = OmniMessage → W → Result Failure (Unit {0}) × W

module _ {W : Type 0} where
  -- What comes after an awaited call, unless it raised.
  abbrev pub and_then :
      {A B : Type 0} → Result Failure A × W → (A → W → Result Failure B × W) → Result Failure B × W
  and_then (ok a, w) k = k a w
  and_then (err x, w) k = (err x, w)

  -- The loop over the interceptors.
  unfoldable pub intercepted : List (Interceptor W) → Interceptor W
  intercepted [] m w = (ok m, w)
  intercepted (i ∷ is) m w = and_then (i m w) (intercepted is)

  -- `_notify`
  pub notify : List (Observer W) → Observer W
  notify [] m w = (ok tt, w)
  notify (o ∷ os) m w = and_then (o m w) (λ u w'. notify os m w')

  unfoldable pub dispatch : List (Interceptor W) → List (Observer W) → Interceptor W → Interceptor W
  unfolding intercepted notify
  dispatch interceptors observers handler m w = and_then (intercepted interceptors m w) (λ m' w1.
      and_then (notify observers m' w1) (λ u w2.
        and_then (handler m' w2)
          (λ reply w3. and_then (notify observers reply w3) (λ v w4. (ok reply, w4)))))

-- What a route of the gateway answers.
pub data Response (A : Type 0) : Type 0 where
  success : A → Response A
  bad_request : String → Response A
  unavailable : String → Response A
  too_large : String → Response A
  internal_error : Response A

-- The handlers of `_register_error_handlers`, and the routes' own for a guardrail's reason.
abbrev pub rendered : {A : Type 0} → Result Failure A → Response A
rendered (ok a) = success a
rendered (err (guardrail reason)) = bad_request reason
rendered (err (engine_unavailable detail)) = unavailable detail
rendered (err (body_too_large detail)) = too_large detail
rendered (err other_failure) = internal_error

module _ {W P A : Type 0} (decode : P → Result Invalid OmniMessage) (encode : OmniMessage → A)
    (interceptors : List (Interceptor W)) (observers : List (Observer W))
    (handler : Interceptor W) where
  abbrev pub encoded : Result Failure OmniMessage × W → Response A × W
  encoded (ok reply, w) = (success (encode reply), w)
  encoded (err x, w) = (rendered (err x), w)

  abbrev pub decoded : Result Invalid OmniMessage → W → Response A × W
  decoded (ok m) w = encoded (dispatch interceptors observers handler m w)
  decoded (err x) w = (internal_error, w)

  -- The routes `/v1/messages` and `/discord/webhook`, by what they do with a payload before and after
  -- `dispatch` (rest_to_omni, webhook_to_omni).
  pub respond : P → W → Response A × W
  respond payload w = decoded (decode payload) w

-- What a probe finds: the database fails, the breaker's state, and the supervisor's failure.
pub record Probe : Type 0 where
  pub database : Option (Option String)
  pub breaker : Option BreakerState
  pub supervisor_failure : Option String

abbrev pub database_problem : Option (Option String) → List String
database_problem (some (some x)) = str_append "database: " x ∷ []
database_problem _ = []

abbrev pub breaker_problem : Option BreakerState → List String
breaker_problem none = []
breaker_problem (some s) = if is_open s then "engine: circuit breaker open" ∷ [] else []

-- The supervisor is asked only where there is an engine.
abbrev pub supervisor_problem : Option BreakerState → Option String → List String
supervisor_problem none failure = []
supervisor_problem (some s) none = []
supervisor_problem (some s) (some reason) =
    str_append "engine: supervisor failed (" (str_append reason ")") ∷ []

abbrev pub problems : Probe → List String
problems p =
    database_problem p.database
    ++ (breaker_problem p.breaker ++ supervisor_problem p.breaker p.supervisor_failure)

abbrev pub is_nil : List String → Bool
is_nil [] = true
is_nil (x ∷ xs) = false

-- `/health/ready`: the problems of a gateway that is not ready.
unfoldable pub readiness : Probe → Option (List String)
readiness p = if is_nil (problems p) then none else some (problems p)
