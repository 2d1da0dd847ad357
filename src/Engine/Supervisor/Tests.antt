-- ===== src/Engine/Supervisor/Tests.antt =====
-- The theorems on the supervisor at concrete rounds.
use na_ai.Base.{◌≤◌, ◌≡◌, refl, true, false, none, [], ◌∷◌, arith, All}
use na_ai.Engine.Registry.{LoraRegistry}
use na_ai.Engine.Supervisor.{Round, sleep, launch, new, backoff, watch_round, watch}
use na_ai.Engine.Supervisor.Restarts.{
  launches_in, IsShort, watch_bounded, dead_rounds_fail, unready_never_reloads,
}

abbrev base_only : LoraRegistry
base_only = record { persistent = false; file = none; loaded = []; active = none; previous = none }

abbrev crashed : Round
crashed = record {
  stopped = false;
  alive = false;
  launches = true;
  ready = true;
  reloads = true;
  lora = base_only;
}

abbrev healthy : Round
healthy = record crashed { alive = true }

abbrev slow : Round
slow = record crashed { ready = false }

two_crashes :
    (watch (crashed ∷ healthy ∷ crashed ∷ []) (new 5 1)).1
    ≡ sleep 2 ∷ launch ∷ sleep 4 ∷ launch ∷ []
unfolding watch watch_round
two_crashes = refl

watch_bounded_example :
    (launches_in (watch (crashed ∷ crashed ∷ []) (new 1 1)).1 ≤ 1)
    × ((watch (crashed ∷ crashed ∷ []) (new 1 1)).0.restarts
        ≡ launches_in (watch (crashed ∷ crashed ∷ []) (new 1 1)).1)
    × All IsShort (watch (crashed ∷ crashed ∷ []) (new 1 1)).1
    × ((watch (crashed ∷ crashed ∷ []) (new 1 1)).0.failed ≡ true
        → (watch (crashed ∷ crashed ∷ []) (new 1 1)).0.watching ≡ false)
watch_bounded_example = watch_bounded 1 1 (crashed ∷ crashed ∷ [])

two_dead_rounds : (watch (crashed ∷ crashed ∷ []) (new 1 1)).0.failed ≡ true
two_dead_rounds =
    dead_rounds_fail (crashed ∷ crashed ∷ []) (new 1 1) refl ((refl, refl), ((refl, refl), tt))
      (omega arith) (omega arith)

unready_never_reloads_example :
    (watch (slow ∷ healthy ∷ healthy ∷ []) (new 5 1)).1
    ≡ sleep (backoff (record (new 5 1) { restarts = 1 })) ∷ launch ∷ []
unready_never_reloads_example =
    unready_never_reloads slow (healthy ∷ healthy ∷ []) (new 5 1) (refl, refl) refl refl refl
      (omega arith) (refl, (refl, tt))
