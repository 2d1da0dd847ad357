-- ===== src/Engine/Retry.antt =====
-- Retries of omniai/engine/resilience.py: `_is_transient` and `with_retries`. The operation is a
-- function of a state `S` that it threads; the third result lists, for each sleep, the bound of the
-- full jitter (the source sleeps a random fraction of it). Delays are whole ticks.
pub mod Attempts
mod Tests
use na_ai.Base.{
  ℕ, zero, suc, ◌+◌, ◌-◌, ◌*◌, ◌/◌, ◌%◌, ◌^◌, ◌≤◌, ◌<◌, min, max, String, ◌≡◌, refl, sym, ap, ◌∙◌,
  ◌≢◌, ◌↔◌, ◌⊎◌, inl, inr, Bool, true, false, ◌&&◌, ◌||◌, not, Option, none, some, List, [], ◌∷◌,
  ◌++◌, map, arith, str_eq, eq_iff, eq_refl, ltb, leb, ◌==◌, if◌then◌else◌, leb→le, le→leb,
  Bool-cases, Option-cases, truthy, opt_eq, length, take, drop, filter, last?, length-append,
  length-filter, length-take, All,
}
use na_ai.Base.Result.{Result, ok, err}

-- What an engine call may raise. `transport_error` is any other `httpx.TransportError`;
-- `request_error` is an `httpx.HTTPError` that is neither a transport error nor a status
-- (`DecodingError`, `TooManyRedirects`); `other_error` is an exception that is no `httpx.HTTPError`.
pub data Exn : Type 0 where
  connect_error read_timeout connect_timeout remote_protocol_error pool_timeout : Exn
  transport_error request_error : Exn
  http_status : ℕ → Exn
  engine_unavailable : Exn
  assertion_error : Exn
  other_error : Exn

unfoldable pub is_transient : Exn → Bool
is_transient connect_error = true
is_transient read_timeout = true
is_transient connect_timeout = true
is_transient remote_protocol_error = true
is_transient pool_timeout = true
is_transient (http_status code) = leb 500 code
is_transient _ = false

-- One round: the outcome of `fn`, the state after it, whether it is the last round, the bound of the
-- sleep, and what the rounds behind it do.
unfoldable pub round :
    {S A : Type 0}
    → Result Exn A
    → S
    → Bool
    → ℕ
    → Result Exn A × S × List ℕ
    → Result Exn A × S × List ℕ
unfolding is_transient
round (ok a) s is_last bound rest = (ok a, s, [])
round (err e) s is_last bound rest =
    if not (is_transient e) || is_last then (err e, s, []) else (rest.0, rest.1, bound ∷ rest.2)

module _ {S A : Type 0} (fn : S → Result Exn A × S) (base_delay max_delay : ℕ) where
  -- The loop from `attempt` on, with `left` rounds left; `attempt == attempts - 1` is the round with
  -- none left after it. With no round at all the assertion behind the loop fails.
  unfoldable pub retry_loop : ℕ → ℕ → S → Result Exn A × S × List ℕ
  retry_loop zero attempt s = (err assertion_error, s, [])
  retry_loop (suc left) attempt s =
      let (r, s') = fn s in
      let rest = retry_loop left (attempt + 1) s' in
      round r s' (left == 0) (min max_delay (base_delay * 2 ^ attempt)) rest

-- `with_retries(fn, attempts, base_delay, max_delay)`
unfoldable pub with_retries :
    {S A : Type 0} → (S → Result Exn A × S) → ℕ → ℕ → ℕ → S → Result Exn A × S × List ℕ
unfolding retry_loop round
with_retries fn attempts base_delay max_delay s = retry_loop fn base_delay max_delay attempts 0 s
