-- ===== src/Engine/Breaker/Invariant.antt =====
-- Which breaker states are reachable, and which calls a breaker admits (CircuitBreaker).
use na_ai.Base.{ℕ, ◌+◌, ◌≤◌, ◌<◌, ◌≡◌, ◌↔◌, ◌⊎◌, true, false, List, [], ◌∷◌, arith}
use na_ai.Engine.Breaker.{
  closed, open_state, half_open, CircuitBreaker, new, begin, returned, raised, cancelled, Event,
  start, finish, step, run,
}

-- A probe is marked only while half-open, and a closed breaker is below its threshold.
pub record IsValid (b : CircuitBreaker) : Type 0 where
  pub enabled : 0 < b.failure_threshold
  pub probe_half_open : b.probing ≡ true → b.state ≡ half_open
  pub closed_below : b.state ≡ closed → b.failures < b.failure_threshold

step-IsValid : (e : Event) (b : CircuitBreaker) → IsValid b → IsValid (step e b)
unfolding step
step-IsValid (start now) b h = ground arith
step-IsValid (finish returned now) b h = ground arith
step-IsValid (finish raised now) b h = ground arith
step-IsValid (finish cancelled now) b h = h

run-IsValid' : (es : List Event) (b : CircuitBreaker) → IsValid b → IsValid (run es b)
unfolding run
run-IsValid' [] b h = h
run-IsValid' (e ∷ es) b h = run-IsValid' es (step e b) (step-IsValid e b h)

-- Whatever calls start, return, raise or are cancelled, in whatever order and at whatever times, a
-- breaker made with a positive threshold marks a probe only while half-open, and while closed counts
-- fewer failures than its threshold.
pub run-IsValid :
    (threshold timeout : ℕ) (es : List Event)
    → 0 < threshold
    → IsValid (run es (new threshold timeout))
run-IsValid threshold timeout es h = run-IsValid' es (new threshold timeout) (ground arith)

-- In a valid state a call is let through exactly when the breaker is closed, or when no probe is in
-- flight and the breaker is half-open or its reset timeout has passed.
pub begin_admits :
    (now : ℕ) (b : CircuitBreaker)
    → IsValid b
    → ((begin now b).0 ≡ true) ↔ (
        (b.state ≡ closed)
        ⊎ ((b.probing ≡ false)
            × ((b.state ≡ half_open)
                ⊎ ((b.state ≡ open_state) × (b.opened_at + b.reset_timeout ≤ now)))))
unfolding begin
begin_admits now b h = (λ p. ground arith, λ p. ground arith)
