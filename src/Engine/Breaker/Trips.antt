-- ===== src/Engine/Breaker/Trips.antt =====
-- Opening after consecutive failures, and recovery (CircuitBreaker._record_failure,
-- ._record_success).
use na_ai.Base.{
  ℕ, ◌+◌, ◌≤◌, ◌<◌, ◌≡◌, true, false, List, [], ◌∷◌, arith, ltb, leb, if◌then◌else◌, length,
}
use na_ai.Engine.Breaker.{closed, open_state, CircuitBreaker, begin, settle, call, returned, raised}

-- Calls that fail one after the other, each begun and ended at the given time.
abbrev pub failing : List ℕ → CircuitBreaker → CircuitBreaker
failing [] b = b
failing (t ∷ ts) b = failing ts (call t t raised b).1

failing_call :
    (t : ℕ) (b : CircuitBreaker)
    → b.state ≡ closed
    → ((call t t raised b).1.failures ≡ b.failures + 1)
      × ((call t t raised b).1.failure_threshold ≡ b.failure_threshold)
      × ((call t t raised b).1.state
          ≡ (if leb b.failure_threshold (b.failures + 1) then open_state else closed))
unfolding call
failing_call t b h = (ground arith, ground arith, ground arith)

-- A closed breaker stays closed through consecutive failures while their count is below the
-- threshold, and is open as soon as the count reaches it.
pub failing_trips :
    (t : ℕ) (ts : List ℕ) (b : CircuitBreaker)
    → b.state ≡ closed
    → b.failures + length (t ∷ ts) ≤ b.failure_threshold
    → (failing (t ∷ ts) b).state
      ≡ (if ltb (b.failures + length (t ∷ ts)) b.failure_threshold then closed else open_state)
failing_trips t [] b c h = ground (arith, failing_call t b c)
failing_trips t (u ∷ ts) b c h =
    ground (arith, failing_call t b c, failing_trips u ts (call t t raised b).1)

-- Once the reset timeout of an open breaker with no probe in flight has passed, one call is run: if
-- it returns, the breaker is closed with no failures counted; if it raises, the breaker is open again
-- from that time on.
pub open_recovers :
    (now later : ℕ) (b : CircuitBreaker)
    → b.state ≡ open_state
    → b.probing ≡ false
    → b.opened_at + b.reset_timeout ≤ now
    → ((call now later returned b).0 ≡ true)
      × ((call now later returned b).1.state ≡ closed)
      × ((call now later returned b).1.failures ≡ 0)
      × ((call now later raised b).1.state ≡ open_state)
      × ((call now later raised b).1.opened_at ≡ later)
unfolding call
open_recovers now later b o p h =
    (ground arith, ground arith, ground arith, ground arith, ground arith)

pub begin_closed : (now : ℕ) (b : CircuitBreaker) → b.state ≡ closed → begin now b ≡ (true, b)
unfolding begin
begin_closed now b h = ground arith

pub begin_open :
    (now : ℕ) (b : CircuitBreaker)
    → b.state ≡ open_state
    → now < b.opened_at + b.reset_timeout
    → begin now b ≡ (false, b)
unfolding begin
begin_open now b o h = ground arith

pub settle_last_failure :
    (now : ℕ) (b : CircuitBreaker)
    → b.failure_threshold ≡ b.failures + 1
    → (settle raised now b).state ≡ open_state
unfolding settle
settle_last_failure now b h = ground arith
