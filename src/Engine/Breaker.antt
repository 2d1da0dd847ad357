-- ===== src/Engine/Breaker.antt =====
-- The circuit breaker of omniai/engine/resilience.py. `call` awaits the guarded operation, so other
-- calls run between its start and its end: it is modelled as `begin`, which admits or refuses the
-- call, and `settle`, which takes the operation's outcome. Clock readings are natural numbers.
pub mod Invariant
pub mod Trips
pub mod Probes
mod Tests
use na_ai.Base.{ℕ, ◌+◌, Bool, true, false, ◌&&◌, ◌||◌, List, [], ◌∷◌, leb, if◌then◌else◌}

pub data BreakerState : Type 0 where
  closed open_state half_open : BreakerState

pub record CircuitBreaker : Type 0 where
  pub failure_threshold : ℕ
  pub reset_timeout : ℕ
  pub state : BreakerState
  pub failures : ℕ
  pub opened_at : ℕ
  pub probing : Bool

-- `CircuitBreaker(failure_threshold, reset_timeout)`
abbrev pub new : ℕ → ℕ → CircuitBreaker
new threshold timeout = record {
  failure_threshold = threshold;
  reset_timeout = timeout;
  state = closed;
  failures = 0;
  opened_at = 0;
  probing = false;
}

abbrev pub is_open : BreakerState → Bool
is_open open_state = true
is_open _ = false

abbrev pub is_half_open : BreakerState → Bool
is_half_open half_open = true
is_half_open _ = false

-- The subtraction of the source stands on the other side, since `-` on ℕ stops at 0.
pub maybe_half_open : ℕ → CircuitBreaker → CircuitBreaker
maybe_half_open now b =
    if is_open b.state && leb (b.opened_at + b.reset_timeout) now
    then record b { state = half_open }
    else b

-- The part of `call` before the operation is awaited; `false` stands for `EngineUnavailable`.
unfoldable pub begin : ℕ → CircuitBreaker → Bool × CircuitBreaker
unfolding maybe_half_open
begin now b =
    let c = maybe_half_open now b in
    if is_open c.state
    then (false, c)
    else (if is_half_open c.state
        then (if c.probing then (false, c) else (true, record c { probing = true }))
        else (true, c))

pub record_failure : ℕ → CircuitBreaker → CircuitBreaker
record_failure now b =
    if is_half_open b.state || leb b.failure_threshold (b.failures + 1)
    then record b {
      probing = false;
      failures = b.failures + 1;
      state = open_state;
      opened_at = now;
    }
    else record b { probing = false; failures = b.failures + 1 }

pub record_success : CircuitBreaker → CircuitBreaker
record_success b = record b { probing = false; failures = 0; state = closed }

-- How the awaited operation ends. `except Exception` does not catch `CancelledError`.
pub data Outcome : Type 0 where
  returned raised cancelled : Outcome

unfoldable pub settle : Outcome → ℕ → CircuitBreaker → CircuitBreaker
unfolding record_failure record_success
settle returned now b = record_success b
settle raised now b = record_failure now b
settle cancelled now b = b

-- `call` with no other call in between: begun at `now`, ended at `later`. The flag tells whether the
-- operation was run.
pub call : ℕ → ℕ → Outcome → CircuitBreaker → Bool × CircuitBreaker
unfolding begin settle
call now later o b =
    let (admitted, c) = begin now b in (admitted, if admitted then settle o later c else c)

-- What happens to the breaker, in the order in which the event loop runs it.
pub data Event : Type 0 where
  start : ℕ → Event
  finish : Outcome → ℕ → Event

pub step : Event → CircuitBreaker → CircuitBreaker
unfolding begin settle
step (start now) b = (begin now b).1
step (finish o now) b = settle o now b

pub run : List Event → CircuitBreaker → CircuitBreaker
unfolding step
run [] b = b
run (e ∷ es) b = run es (step e b)
