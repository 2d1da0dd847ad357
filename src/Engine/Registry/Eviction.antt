-- ===== src/Engine/Registry/Eviction.antt =====
-- Which adapter is evicted, and when there is one (LoRARegistry.eviction_candidate).
use na_ai.Base.{
  All-map, All-filter, ℕ, ◌+◌, ◌≤◌, ◌<◌, String, ◌≡◌, refl, Bool, true, false, Option, none, some,
  List, [], ◌∷◌, arith, eq_iff, ltb, if◌then◌else◌, opt_eq, length, filter, All,
}
use na_ai.Base.Dict.{Dict, lookup, values}
use na_ai.Engine.Registry.{
  AdapterRecord, LoraRegistry, oldest, is_evictable, oldest_name, eviction_candidate,
}
use na_ai.Engine.Registry.Invariant.{IsKeyed, IsConsistent}

-- How many entries are records of the given name.
abbrev count_named : Option String → Dict AdapterRecord → ℕ
count_named o [] = 0
count_named o ((k, a) ∷ d) = (if opt_eq o (some a.name) then 1 else 0) + count_named o d

count_named-absent :
    (s : String) (d : Dict AdapterRecord)
    → IsKeyed d
    → lookup s d ≡ none
    → count_named (some s) d ≡ 0
count_named-absent s [] h e = refl
count_named-absent s ((k, a) ∷ d) h e =
    ground (arith, count_named-absent s d h.2, eq_iff k s, eq_iff s a.name)

count_named-le : (o : Option String) (d : Dict AdapterRecord) → IsKeyed d → count_named o d ≤ 1
count_named-le none [] h = omega arith
count_named-le none ((k, a) ∷ d) h = ground (arith, count_named-le none d h.2)
count_named-le (some s) [] h = omega arith
count_named-le (some s) ((k, a) ∷ d) h =
    ground (
      arith,
      count_named-le (some s) d h.2,
      count_named-absent s d h.2,
      eq_iff k s,
      eq_iff s a.name,
    )

length-evictable :
    (r : LoraRegistry) (d : Dict AdapterRecord)
    → length d
      ≤ length (filter (is_evictable r) (values d))
        + count_named r.active d
        + count_named r.previous d
length-evictable r [] = omega arith
length-evictable r ((k, a) ∷ d) = ground (arith, length-evictable r d)

oldest_name-some :
    (xs : List AdapterRecord) → 0 < length xs → (s : String) × (oldest_name xs ≡ some s)
oldest_name-some [] h = absurd (omega arith)
oldest_name-some (a ∷ xs) h = ((oldest a xs).name, refl)

-- A consistent registry with at least three adapters, and at least as many as the capacity, has an
-- adapter to evict.
pub eviction_candidate-exists :
    (capacity : ℕ) (r : LoraRegistry)
    → IsConsistent r
    → capacity ≤ length r.loaded
    → 3 ≤ length r.loaded
    → (s : String) × (eviction_candidate capacity r ≡ some s)
unfolding eviction_candidate
eviction_candidate-exists capacity r h full three =
    let (s, e) = oldest_name-some (filter (is_evictable r) (values r.loaded)) (
      omega (
        arith,
        length-evictable r r.loaded,
        count_named-le r.active r.loaded h.keyed,
        count_named-le r.previous r.loaded h.keyed,
      )) in
    (s, ground arith)

oldest-All :
    (P : AdapterRecord → Type 0) (best : AdapterRecord) (xs : List AdapterRecord)
    → All P (best ∷ xs)
    → P (oldest best xs)
unfolding oldest
oldest-All P best [] h = h.0
oldest-All P best (a ∷ xs) h =
    oldest-All P (if ltb a.loaded_at best.loaded_at then a else best) xs
      (pick (ltb a.loaded_at best.loaded_at), h.1.1)
  where
    pick : (b : Bool) → P (if b then a else best)
    pick true = h.1.0
    pick false = h.0

oldest-least :
    (best : AdapterRecord) (xs : List AdapterRecord)
    → All (λ a. (oldest best xs).loaded_at ≤ a.loaded_at) (best ∷ xs)
unfolding oldest
oldest-least best [] = (omega arith, tt)
oldest-least best (a ∷ xs) =
    let rest = oldest-least (if ltb a.loaded_at best.loaded_at then a else best) xs in
    (ground (arith, rest.0), (ground (arith, rest.0), rest.1))

-- The record that the dictionary has under this name is evictable, and no evictable record of the
-- dictionary has been loaded before it.
pub record IsOldest (r : LoraRegistry) (s : String) : Type 0 where
  pub witness : AdapterRecord
  pub stored : lookup s r.loaded ≡ some witness
  pub evictable : is_evictable r witness ≡ true
  pub least : All (λ a. witness.loaded_at ≤ a.loaded_at) (filter (is_evictable r) (values r.loaded))

lookup-values :
    (d : Dict AdapterRecord) → IsKeyed d → All (λ a. lookup a.name d ≡ some a) (values d)
lookup-values [] h = tt
lookup-values ((k, a) ∷ d) h = (
  ground (arith, eq_iff k a.name),
  All-map _ _ (values d) (λ b e. ground (arith, eq_iff k b.name)) (lookup-values d h.2),
)

oldest_name-IsOldest :
    (r : LoraRegistry) (xs : List AdapterRecord) (s : String)
    → All (λ a. (lookup a.name r.loaded ≡ some a) × (is_evictable r a ≡ true)) xs
    → oldest_name xs ≡ some s
    → xs ≡ filter (is_evictable r) (values r.loaded)
    → (o : IsOldest r s) × (o.witness.name ≡ s)
oldest_name-IsOldest r [] s h e q = cc
oldest_name-IsOldest r (a ∷ xs) s h e q =
    let best = oldest-All _ a xs h in
    let n : (oldest a xs).name ≡ s = cc in
    (
      record {
        witness = oldest a xs;
        stored = rw (← n) best.0;
        evictable = best.1;
        least = rw (← q) (oldest-least a xs);
      },
      n,
    )

-- What is evicted from a consistent registry is loaded, is neither active nor the rollback target,
-- and no other such adapter was loaded before it; and nothing is evicted while there is a free slot.
pub eviction_candidate-IsOldest :
    (capacity : ℕ) (r : LoraRegistry) (s : String)
    → IsConsistent r
    → eviction_candidate capacity r ≡ some s
    → (capacity ≤ length r.loaded)
      × (opt_eq r.active (some s) ≡ false)
      × (opt_eq r.previous (some s) ≡ false)
      × IsOldest r s
unfolding eviction_candidate
eviction_candidate-IsOldest capacity r s h e =
    let full : capacity ≤ length r.loaded = ground arith in
    let (o, named) =
      oldest_name-IsOldest r (filter (is_evictable r) (values r.loaded)) s
        (All-filter _ (is_evictable r) (values r.loaded) (lookup-values r.loaded h.keyed))
        (ground arith) refl in
    (
      full,
      rw (← named) (ground (arith, o.evictable)),
      rw (← named) (ground (arith, o.evictable)),
      o,
    )
