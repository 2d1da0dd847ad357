-- ===== src/Engine/Breaker/Probes.antt =====
-- Half-open probes (CircuitBreaker.call).
use na_ai.Base.{
  ℕ, ◌+◌, ◌≤◌, ◌<◌, ◌≡◌, refl, ap, ◌∙◌, Bool, true, false, List, [], ◌∷◌, ◌++◌, map, arith,
  if◌then◌else◌, All,
}
use na_ai.Engine.Breaker.Trips.{begin_open}
use na_ai.Engine.Breaker.{
  open_state, half_open, CircuitBreaker, begin, settle, call, raised, cancelled,
}

-- How many of the calls started at the given times are let through, none of them ending meanwhile.
abbrev pub admissions : List ℕ → CircuitBreaker → ℕ
admissions [] b = 0
admissions (t ∷ ts) b =
    let (admitted, c) = begin t b in (if admitted then 1 else 0) + admissions ts c

busy_refuses :
    (t : ℕ) (b : CircuitBreaker)
    → b.state ≡ half_open
    → b.probing ≡ true
    → ((begin t b).0 ≡ false) × ((begin t b).1.state ≡ half_open) × ((begin t b).1.probing ≡ true)
unfolding begin
busy_refuses t b s p = (ground arith, ground arith, ground arith)

admissions_busy :
    (ts : List ℕ) (b : CircuitBreaker)
    → b.state ≡ half_open
    → b.probing ≡ true
    → admissions ts b ≡ 0
admissions_busy [] b s p = refl
admissions_busy (t ∷ ts) b s p =
    ground (arith, busy_refuses t b s p, admissions_busy ts (begin t b).1)

first_probe :
    (t : ℕ) (b : CircuitBreaker)
    → b.state ≡ open_state
    → b.probing ≡ false
    → b.opened_at + b.reset_timeout ≤ t
    → ((begin t b).0 ≡ true) × ((begin t b).1.state ≡ half_open) × ((begin t b).1.probing ≡ true)
unfolding begin
first_probe t b s p h = (ground arith, ground arith, ground arith)

-- Whether each of the calls started at the given times is let through, none of them ending meanwhile.
abbrev pub decisions : List ℕ → CircuitBreaker → List Bool
decisions [] b = []
decisions (t ∷ ts) b = let (admitted, c) = begin t b in admitted ∷ decisions ts c

decisions_busy :
    (ts : List ℕ) (b : CircuitBreaker)
    → b.state ≡ half_open
    → b.probing ≡ true
    → decisions ts b ≡ map (λ u. false) ts
decisions_busy [] b s p = refl
decisions_busy (t ∷ ts) b s p =
    let (refused, still, busy) = busy_refuses t b s p in
    rw refused (ap (λ l. false ∷ l) (decisions_busy ts (begin t b).1 still busy))

decisions_early :
    (early ts : List ℕ) (b : CircuitBreaker)
    → b.state ≡ open_state
    → All (λ u. u < b.opened_at + b.reset_timeout) early
    → decisions (early ++ ts) b ≡ map (λ u. false) early ++ decisions ts b
decisions_early [] ts b s h = refl
decisions_early (u ∷ early) ts b s h =
    rw (begin_open u b s h.0) (ap (λ l. false ∷ l) (decisions_early early ts b s h.1))

-- Of the calls that start at an open breaker that has no probe in flight, while no call ends, those
-- before the reset timeout are refused, the first one after it is let through, and all calls that
-- start after that one are refused.
pub admissions_one :
    (early : List ℕ) (t : ℕ) (later : List ℕ) (b : CircuitBreaker)
    → b.state ≡ open_state
    → b.probing ≡ false
    → All (λ u. u < b.opened_at + b.reset_timeout) early
    → b.opened_at + b.reset_timeout ≤ t
    → decisions (early ++ t ∷ later) b ≡ map (λ u. false) early ++ true ∷ map (λ u. false) later
admissions_one early t later b s p before h =
    let (admitted, state, busy) = first_probe t b s p h in
    decisions_early early (t ∷ later) b s before
    ∙ ap (λ l. map (λ u. false) early ++ l)
        (rw admitted (ap (λ l. true ∷ l) (decisions_busy later (begin t b).1 state busy)))

-- A probe that is cancelled leaves the breaker refusing every later call, at whatever time it starts.
pub cancelled_probe_wedges :
    (now later : ℕ) (ts : List ℕ) (b : CircuitBreaker)
    → b.state ≡ open_state
    → b.probing ≡ false
    → b.opened_at + b.reset_timeout ≤ now
    → admissions ts (call now later cancelled b).1 ≡ 0
unfolding call
cancelled_probe_wedges now later ts b s p h =
    ground (arith, first_probe now b s p h, admissions_busy ts (begin now b).1)

-- While a probe is in flight, the failure of any other call, one admitted before the breaker opened,
-- clears the mark: after one more reset timeout a second probe is let through beside the first.
pub stale_failure_admits_second_probe :
    (now later : ℕ) (b : CircuitBreaker)
    → b.state ≡ half_open
    → b.probing ≡ true
    → now + b.reset_timeout ≤ later
    → ((begin now b).0 ≡ false) × ((begin later (settle raised now b)).0 ≡ true)
unfolding begin settle
stale_failure_admits_second_probe now later b s p h = (ground arith, ground arith)
