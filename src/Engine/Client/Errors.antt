-- ===== src/Engine/Client/Errors.antt =====
-- Which errors reach a caller of the engine, and what a request leaves alone (ModelEngine._post).
use na_ai.Base.{
  Option, List, String, ℕ, ◌+◌, ◌<◌, ◌≡◌, refl, Bool, true, false, arith, ltb, if◌then◌else◌,
}
use na_ai.Base.Result.{Result, ok, err}
use na_ai.Engine.Breaker
use na_ai.Engine.Breaker.Trips.{begin_closed, begin_open, settle_last_failure}
use na_ai.Engine.Breaker.{CircuitBreaker, Outcome, BreakerState, closed, open_state, half_open}
use na_ai.Engine.Retry.{
  Exn, engine_unavailable, connect_error, http_status, request_error, other_error, assertion_error,
  is_transient,
}
use na_ai.Engine.Client.{ChatMessage, Request, ModelEngine, translate, translated, post, chat}
use na_ai.Engine.Retry.Attempts.{with_retries-final}

-- What a caller of the engine may have to handle: unavailability, a client error below 500, or a
-- failure that is no error of the transport (`httpx.DecodingError`, say, or a bug).
abbrev pub is_reported : Exn → Bool
is_reported engine_unavailable = true
is_reported (http_status code) = ltb code 500
is_reported request_error = true
is_reported other_error = true
is_reported assertion_error = true
is_reported _ = false

translate-reported : (x : Exn) → is_reported (translate x) ≡ true
unfolding translate
translate-reported (http_status code) = ground arith
translate-reported connect_error = refl
translate-reported _ = refl

post_reported :
    {A B C : Type 0} (admitted : Bool) (r : Result Exn A) (b b' : B) (c c' : C) (x : Exn)
    → (if◌then◌else◌ {A = Result Exn A × B × C} admitted
        (translated r, b, c)
        (err engine_unavailable, b', c')).0
      ≡ err x
    → is_reported x ≡ true
post_reported true (ok a) b b' c c' x h = cc
post_reported true (err e) b b' c c' x h = ground (arith, translate-reported e)
post_reported false r b b' c c' x h = ground arith

module _ {W Reply : Type 0} (clock : W → ℕ) (send : Request → W → Result Exn Reply × W) where
  -- A request changes nothing of the engine but its breaker: the number of requests in flight is
  -- restored, on every outcome.
  pub post_keeps :
      (req : Request) (e : ModelEngine) (w : W)
      → ((post clock send req e w).1.lora ≡ e.lora)
        × ((post clock send req e w).1.in_flight ≡ e.in_flight)
        × ((post clock send req e w).1.max_loras ≡ e.max_loras)
        × ((post clock send req e w).1.model ≡ e.model)
  unfolding post
  post_keeps req e w = (ground arith, ground arith, ground arith, ground arith)

  -- Whatever the backend does, an error that leaves `_post` is unavailability, a client error below
  -- 500, or no connection error at all: no transient error reaches the caller. The number of requests
  -- in flight and the adapters are as they were.
  pub post_errors :
      (req : Request) (e : ModelEngine) (w : W) (x : Exn)
      → (post clock send req e w).0 ≡ err x
      → (is_reported x ≡ true)
        × ((post clock send req e w).1.in_flight ≡ e.in_flight)
        × ((post clock send req e w).1.lora ≡ e.lora)
  unfolding post
  post_errors req e w x h = (
    post_reported (Breaker.begin (clock w) e.breaker).0 _ _ _ _ _ x h,
    (post_keeps req e w).1,
    (post_keeps req e w).0,
  )

  pub chat_errors :
      (messages : List ChatMessage) (model_override : Option String) (e : ModelEngine) (w : W)
      (x : Exn)
      → (chat clock send messages model_override e w).0 ≡ err x
      → is_reported x ≡ true
  unfolding chat
  chat_errors messages model_override e w x h = (post_errors _ e w x h).0

  -- While the breaker is open and its reset timeout has not passed, a request is answered by
  -- `EngineUnavailable` without reaching the backend.
  pub post-open :
      (req : Request) (e : ModelEngine) (w : W)
      → e.breaker.state ≡ open_state
      → clock w < e.breaker.opened_at + e.breaker.reset_timeout
      → post clock send req e w ≡ (err engine_unavailable, e, w)
  unfolding post
  post-open req e w o h = ground (arith, begin_open (clock w) e.breaker o h)

  -- A client error is reported as such and is not retried, but it counts as a failure of the backend:
  -- one that brings the count to the threshold opens the breaker.
  pub client_error_opens :
      (req : Request) (e : ModelEngine) (w : W) (code : ℕ) (w' : W)
      → send req w ≡ (err (http_status code), w')
      → code < 500
      → 0 < e.retries
      → e.breaker.state ≡ closed
      → e.breaker.failure_threshold ≡ e.breaker.failures + 1
      → ((post clock send req e w).0 ≡ err (http_status code))
        × ((post clock send req e w).1.breaker.state ≡ open_state)
        × ((post clock send req e w).2 ≡ w')
  unfolding post translate is_transient
  client_error_opens req e w code w' answer client some_try c t = ground (
    arith,
    begin_closed (clock w) e.breaker c,
    with_retries-final (send req) e.retries 1 16 w w' (err (http_status code)) some_try answer
        (ground arith),
    settle_last_failure (clock w') e.breaker t,
  )
