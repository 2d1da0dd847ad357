-- ===== src/Engine/Registry/Tests.antt =====
-- The theorems on the adapter registry at concrete registries.
use na_ai.Base.{
  ℕ, ◌≤◌, String, ◌≡◌, refl, true, false, none, some, List, [], ◌∷◌, arith, opt_eq, length,
}
use na_ai.Engine.Registry.{AdapterRecord, LoraRegistry, eviction_candidate, open_registry}
use na_ai.Engine.Registry.Invariant.{IsConsistent}
use na_ai.Engine.Registry.Eviction.{
  IsOldest, eviction_candidate-exists, eviction_candidate-IsOldest,
}
use na_ai.Engine.Registry.Persistence.{
  Command, register_as, activate_name, remove_name, run, reopen-run,
}

abbrev adapter_at : String → ℕ → AdapterRecord
adapter_at name t = record { name = name; path = "/adapters"; loaded_at = t }

-- The base adapter "a" is active, "b" is the rollback target, and "c" and "d" are spare.
abbrev full : LoraRegistry
full = record {
  persistent = false;
  file = none;
  loaded =
      ("a", adapter_at "a" 1)
      ∷ ("b", adapter_at "b" 2)
      ∷ ("c", adapter_at "c" 9)
      ∷ ("d", adapter_at "d" 4)
      ∷ [];
  active = some "a";
  previous = some "b";
}

full-IsConsistent : IsConsistent full
full-IsConsistent = ground arith

full_evicts : eviction_candidate 4 full ≡ some "d"
unfolding eviction_candidate
full_evicts = refl

eviction_candidate-exists_example : (s : String) × (eviction_candidate 4 full ≡ some s)
eviction_candidate-exists_example =
    eviction_candidate-exists 4 full full-IsConsistent (omega arith) (omega arith)

eviction_candidate-IsOldest_example :
    (4 ≤ length full.loaded)
    × (opt_eq full.active (some "d") ≡ false)
    × (opt_eq full.previous (some "d") ≡ false)
    × IsOldest full "d"
eviction_candidate-IsOldest_example =
    eviction_candidate-IsOldest 4 full "d" full-IsConsistent full_evicts

abbrev calls : List Command
calls =
    register_as "a" "/a" 1
    ∷ activate_name "a"
    ∷ register_as "b" "/b" 2
    ∷ activate_name "b"
    ∷ activate_name "zzz"
    ∷ remove_name "a"
    ∷ []

reopen-run_example :
    IsConsistent (run calls (open_registry true none))
    × (open_registry true (run calls (open_registry true none)).file
        ≡ run calls (open_registry true none))
reopen-run_example = reopen-run calls
