-- ===== src/Engine/Breaker/Tests.antt =====
-- The theorems on the circuit breaker at concrete breakers, and short runs.
use na_ai.Base.{◌+◌, ◌≤◌, ◌≡◌, refl, ◌↔◌, ◌⊎◌, true, false, [], ◌∷◌, arith}
use na_ai.Engine.Breaker.{
  closed, open_state, half_open, CircuitBreaker, new, begin, settle, call, returned, raised,
  cancelled, start, finish, run,
}
use na_ai.Engine.Breaker.Invariant.{IsValid, run-IsValid, begin_admits}
use na_ai.Engine.Breaker.Trips.{failing, failing_trips, open_recovers}
use na_ai.Engine.Breaker.Probes.{
  admissions, decisions, admissions_one, cancelled_probe_wedges, stale_failure_admits_second_probe,
}

-- Five failures at time 7, with thirty ticks to wait.
abbrev tripped : CircuitBreaker
tripped = record {
  failure_threshold = 5;
  reset_timeout = 30;
  state = open_state;
  failures = 5;
  opened_at = 7;
  probing = false;
}

abbrev probing_breaker : CircuitBreaker
probing_breaker = record tripped { state = half_open; probing = true }

five_failures : failing (3 ∷ 4 ∷ 5 ∷ 6 ∷ 7 ∷ []) (new 5 30) ≡ tripped
unfolding call
five_failures = refl

run-IsValid_example : IsValid (run (start 3 ∷ finish raised 7 ∷ []) (new 1 30))
run-IsValid_example = run-IsValid 1 30 (start 3 ∷ finish raised 7 ∷ []) (omega arith)

begin_admits_example : ((begin 40 tripped).0 ≡ true) ↔ (
    (tripped.state ≡ closed)
    ⊎ ((tripped.probing ≡ false)
        × ((tripped.state ≡ half_open)
            ⊎ ((tripped.state ≡ open_state) × (tripped.opened_at + tripped.reset_timeout ≤ 40)))))
begin_admits_example = begin_admits 40 tripped (ground arith)

threshold_of_two : (failing (3 ∷ 4 ∷ []) (new 2 30)).state ≡ open_state
threshold_of_two = failing_trips 3 (4 ∷ []) (new 2 30) refl (omega arith)

open_recovers_example :
    ((call 40 41 returned tripped).0 ≡ true)
    × ((call 40 41 returned tripped).1.state ≡ closed)
    × ((call 40 41 returned tripped).1.failures ≡ 0)
    × ((call 40 41 raised tripped).1.state ≡ open_state)
    × ((call 40 41 raised tripped).1.opened_at ≡ 41)
open_recovers_example = open_recovers 40 41 tripped refl refl (omega arith)

admissions_one_example :
    decisions (8 ∷ 36 ∷ 40 ∷ 41 ∷ 42 ∷ []) tripped ≡ false ∷ false ∷ true ∷ false ∷ false ∷ []
admissions_one_example =
    admissions_one (8 ∷ 36 ∷ []) 40 (41 ∷ 42 ∷ []) tripped refl refl
      (omega arith, (omega arith, tt)) (omega arith)

cancelled_probe_wedges_example : admissions (50 ∷ 5000 ∷ []) (call 40 41 cancelled tripped).1 ≡ 0
cancelled_probe_wedges_example =
    cancelled_probe_wedges 40 41 (50 ∷ 5000 ∷ []) tripped refl refl (omega arith)

stale_failure_admits_second_probe_example :
    ((begin 41 probing_breaker).0 ≡ false)
    × ((begin 71 (settle raised 41 probing_breaker)).0 ≡ true)
stale_failure_admits_second_probe_example =
    stale_failure_admits_second_probe 41 71 probing_breaker refl refl (omega arith)
