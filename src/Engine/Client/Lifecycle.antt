-- ===== src/Engine/Client/Lifecycle.antt =====
-- Loading and unloading adapters (ModelEngine.load_lora_adapter, .unload_lora_adapter).
use na_ai.Base.{
  ℕ, ◌+◌, ◌≤◌, ◌<◌, String, ◌≡◌, refl, ap, ◌∙◌, inl, inr, Bool, true, false, Option, none, some,
  arith, eq_refl, opt_eq, ltb, if◌then◌else◌, Bool-cases, length,
}
use na_ai.Base.Dict.{
  contains, lookup, lookup-insert, contains-insert, length-insert, length-remove-lt,
}
use na_ai.Base.Result.{Result, ok, err}
use na_ai.Engine.Registry.{LoraRegistry, register, promote, unregister, eviction_candidate}
use na_ai.Engine.Retry.{Exn}
use na_ai.Engine.Client.{
  Request, load_request, unload_request, ModelEngine, post, after, stored, unload_lora_adapter,
  install, load_into_slot, load_evicting, then_do, load_lora_adapter,
}
use na_ai.Engine.Registry.Invariant.{
  IsConsistent, register-IsConsistent, promote-IsConsistent, unregister-IsConsistent,
  register_fields, promote_fields, unregister_fields, activate-known,
}
use na_ai.Engine.Registry.Eviction.{
  IsOldest, eviction_candidate-exists, eviction_candidate-IsOldest,
}
use na_ai.Engine.Client.Errors.{post_keeps}

-- The rollback target once the named adapter has been activated.
abbrev pub retained : String → LoraRegistry → Option String
retained name r = if opt_eq r.active (some name) then r.previous else r.active

-- What a load that began at `old` has done. If it succeeded, the registry's record of the name has the
-- given path and the time at which the load ended. If the load was asked to activate it, it is active,
-- and the rollback target is the adapter that was active before, or what it was if that is the same
-- adapter; else both are what they were. With three slots or more a registry within its slots stays
-- within them. If the load failed, the active adapter and the rollback target are what they were.
abbrev pub LoadEnds :
    {W : Type 0}
    → (W → ℕ)
    → String
    → String
    → Bool
    → ModelEngine
    → Result Exn (Unit {0}) × ModelEngine × W
    → Type 0
LoadEnds clock name path active old (ok a, new, w) =
    IsConsistent new.lora
    × (lookup name new.lora.loaded
        ≡ some (record { name = name; path = path; loaded_at = clock w }))
    × (new.lora.active ≡ (if active then some name else old.lora.active))
    × (new.lora.previous ≡ (if active then retained name old.lora else old.lora.previous))
    × (3 ≤ old.max_loras
        → length old.lora.loaded ≤ old.max_loras
        → length new.lora.loaded ≤ old.max_loras)
LoadEnds clock name path active old (err x, new, w) =
    IsConsistent new.lora
    × (new.lora.active ≡ old.lora.active)
    × (new.lora.previous ≡ old.lora.previous)

length-register :
    (name path : String) (now : ℕ) (r : LoraRegistry)
    → length (register name path now r).loaded ≤ length r.loaded + 1
length-register name path now r = rw (register_fields name path now r).0 (
    ground
      (arith, length-insert name (record { name = name; path = path; loaded_at = now }) r.loaded))

abbrev installed : String → String → Bool → ℕ → LoraRegistry → LoraRegistry
installed name path active now r =
    let r' = register name path now r in if active then promote name r' else r'

contains-register :
    (name path : String) (now : ℕ) (r : LoraRegistry)
    → contains name (register name path now r).loaded ≡ true
contains-register name path now r = rw (register_fields name path now r).0 (
    ground (
      arith,
      contains-insert name name (record { name = name; path = path; loaded_at = now }) r.loaded,
      eq_refl name,
    ))

lookup-register :
    (name path : String) (now : ℕ) (r : LoraRegistry)
    → lookup name (register name path now r).loaded
      ≡ some (record { name = name; path = path; loaded_at = now })
lookup-register name path now r = rw (register_fields name path now r).0 (
    ground (
      arith,
      lookup-insert name name (record { name = name; path = path; loaded_at = now }) r.loaded,
      eq_refl name,
    ))

promote_previous :
    (name path : String) (now : ℕ) (r : LoraRegistry)
    → (promote name (register name path now r)).previous ≡ retained name r
promote_previous name path now r =
    (promote_fields name (register name path now r)).2
    ∙ rw ((register_fields name path now r).1, (register_fields name path now r).2) refl

-- `install` does not raise: the name that it activates has just been registered.
install_lem :
    (name path : String) (active : Bool) (now : ℕ) (r : LoraRegistry)
    → install name path active now r ≡ ok (installed name path active now r)
unfolding install
install_lem name path true now r = activate-known name _ (contains-register name path now r)
install_lem name path false now r = refl

installed_lem :
    (name path : String) (active : Bool) (now : ℕ) (r : LoraRegistry)
    → IsConsistent r
    → IsConsistent (installed name path active now r)
      × (lookup name (installed name path active now r).loaded
          ≡ some (record { name = name; path = path; loaded_at = now }))
      × ((installed name path active now r).active ≡ (if active then some name else r.active))
      × ((installed name path active now r).previous
          ≡ (if active then retained name r else r.previous))
      × (length (installed name path active now r).loaded ≤ length r.loaded + 1)
installed_lem name path true now r h =
    let r' = register name path now r in
    let known = contains-register name path now r in
    (
      promote-IsConsistent name r' known (register-IsConsistent name path now r h),
      rw (promote_fields name r').0 (lookup-register name path now r),
      (promote_fields name r').1,
      promote_previous name path now r,
      rw (promote_fields name r').0 (length-register name path now r),
    )
installed_lem name path false now r h = (
  register-IsConsistent name path now r h,
  lookup-register name path now r,
  (register_fields name path now r).1,
  (register_fields name path now r).2,
  length-register name path now r,
)

contains_stored : (s : String) (r : LoraRegistry) → IsOldest r s → contains s r.loaded ≡ true
contains_stored s r o = ground (arith, o.stored)

-- Room for one more adapter in `new`, whenever `old` was within its slots.
abbrev HasRoom : ModelEngine → LoraRegistry → Type 0
HasRoom old new =
    3 ≤ old.max_loras → length old.lora.loaded ≤ old.max_loras → length new.loaded < old.max_loras

no_victim :
    (e : ModelEngine)
    → IsConsistent e.lora
    → eviction_candidate e.max_loras e.lora ≡ none
    → HasRoom e e.lora
no_victim e h none_due three fits = elim (Bool-cases (ltb (length e.lora.loaded) e.max_loras)) [
  | inl room ↦ ground arith
  | inr full ↦
      let (s, due) = eviction_candidate-exists e.max_loras e.lora h (ground arith) (ground arith) in
      absurd (cc)
]

module _ {W Reply : Type 0} (clock : W → ℕ) (send : Request → W → Result Exn Reply × W) where
  answered_ends :
      (name path : String) (active : Bool) (old : ModelEngine)
      (res : Result Exn Reply × ModelEngine × W)
      → IsConsistent res.1.lora
      → res.1.lora.active ≡ old.lora.active
      → res.1.lora.previous ≡ old.lora.previous
      → HasRoom old res.1.lora
      → LoadEnds clock name path active old (
          after clock send res λ e w.
            stored
              (install name path active (clock w) e.lora)
              (register name path (clock w) e.lora)
              e
              w)
  answered_ends name path active old (ok a, e, w) h same_active same_previous room =
      let (c, l, act, prev, len) = installed_lem name path active (clock w) e.lora h in
      rw (install_lem name path active (clock w) e.lora) (
        c,
        l,
        act ∙ ap (λ (o : Option String). if active then some name else o) same_active,
        prev ∙ rw (same_active, same_previous) refl,
        λ three fits. omega (arith, room three fits, len),
      )
  answered_ends name path active old (err x, e, w) h same_active same_previous room =
      (h, same_active, same_previous)

  slot_ends :
      (name path : String) (active : Bool) (old e : ModelEngine) (w : W)
      → IsConsistent e.lora
      → e.lora.active ≡ old.lora.active
      → e.lora.previous ≡ old.lora.previous
      → HasRoom old e.lora
      → LoadEnds clock name path active old (load_into_slot clock send name path active e w)
  unfolding load_into_slot
  slot_ends name path active old e w h same_active same_previous room =
      let keeps : (post clock send (load_request name path) e w).1.lora ≡ e.lora =
        (post_keeps clock send (load_request name path) e w).0 in
      answered_ends name path active old (post clock send (load_request name path) e w) (rw keeps h)
        (rw keeps same_active) (rw keeps same_previous) (rw keeps room)

  evicted_ends :
      (victim name path : String) (active : Bool) (old : ModelEngine)
      (res : Result Exn Reply × ModelEngine × W)
      → IsConsistent old.lora
      → eviction_candidate old.max_loras old.lora ≡ some victim
      → res.1.lora ≡ old.lora
      → LoadEnds clock name path active old (
          then_do clock send
            (after clock send res λ e w. (ok tt, record e { lora = unregister victim e.lora }, w))
            (load_into_slot clock send name path active))
  evicted_ends victim name path active old (ok a, e, w) h v keeps =
      let (full, na, np, o) = eviction_candidate-IsOldest old.max_loras old.lora victim h v in
      slot_ends name path active old (record e { lora = unregister victim e.lora }) w
        (rw keeps (unregister-IsConsistent victim old.lora h))
        (rw keeps (ground (arith, unregister_fields victim old.lora)))
        (rw keeps (ground (arith, unregister_fields victim old.lora)))
        (rw keeps λ three fits. rw (unregister_fields victim old.lora).0 (
          omega
            (arith, length-remove-lt victim old.lora.loaded (contains_stored victim old.lora o))))
  evicted_ends victim name path active old (err x, e, w) h v keeps = (
    rw keeps h,
    ap (λ (r : LoraRegistry). r.active) keeps,
    ap (λ (r : LoraRegistry). r.previous) keeps,
  )

  -- Whatever the backend answers to the eviction and to the load, `load_lora_adapter` on a
  -- consistent registry keeps it consistent. If it succeeds, the registry's record of the name has
  -- the given path and the time of the end, and with three slots or more the number of loaded
  -- adapters, if it was within the slots, stays there; if asked to activate, the adapter is active
  -- and the one that was active before, if another, is the rollback target; if not, the active
  -- adapter and the rollback target are unchanged. So they are if it fails.
  pub load_lora_adapter_ends :
      (name path : String) (active : Bool) (e : ModelEngine) (w : W)
      → IsConsistent e.lora
      → LoadEnds clock name path active e (load_lora_adapter clock send name path active e w)
  unfolding load_lora_adapter unload_lora_adapter
  load_lora_adapter_ends name path active e w h = go (eviction_candidate e.max_loras e.lora) refl
    where
      go :
          (o : Option String)
          → eviction_candidate e.max_loras e.lora ≡ o
          → LoadEnds clock name path active e (load_evicting clock send o name path active e w)
      go none none_due = slot_ends name path active e e w h refl refl (no_victim e h none_due)
      go (some victim) v =
          evicted_ends victim name path active e (post clock send (unload_request victim) e w) h v
            (post_keeps clock send (unload_request victim) e w).0
