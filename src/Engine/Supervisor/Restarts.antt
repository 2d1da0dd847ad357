-- ===== src/Engine/Supervisor/Restarts.antt =====
-- How often the supervisor restarts the backend, and when it gives up (EngineSupervisor._watch).
use na_ai.Base.{
  ℕ, suc, ◌+◌, ◌≤◌, ◌<◌, max, ◌≡◌, refl, ◌∙◌, ◌⊎◌, inl, inr, Bool, true, false, List, [], ◌∷◌, ◌++◌,
  arith, length, All,
}
use na_ai.Engine.Supervisor.{
  Round, Action, sleep, launch, reload, EngineSupervisor, new, give_up, backoff, Reapply, nothing,
  adapter, missing, to_reapply, reapplied, watch_round, watch,
}

abbrev pub launches_in : List Action → ℕ
launches_in [] = 0
launches_in (launch ∷ xs) = suc (launches_in xs)
launches_in (sleep d ∷ xs) = launches_in xs
launches_in (reload n p ∷ xs) = launches_in xs

abbrev pub IsShort : Action → Type 0
IsShort (sleep d) = d ≤ 30
IsShort launch = Unit
IsShort (reload n p) = Unit

launches_in-append :
    (xs ys : List Action) → launches_in (xs ++ ys) ≡ launches_in xs + launches_in ys
launches_in-append [] ys = omega arith
launches_in-append (launch ∷ xs) ys = omega (arith, launches_in-append xs ys)
launches_in-append (sleep d ∷ xs) ys = launches_in-append xs ys
launches_in-append (reload n p ∷ xs) ys = launches_in-append xs ys

-- What a stretch of the loop has done: each launch was counted, no backoff was longer than thirty
-- seconds, and the cap holds.
pub record Watched (s s' : EngineSupervisor) (xs : List Action) : Type 0 where
  pub counted : s'.restarts ≡ s.restarts + launches_in xs
  pub capped : s.restarts ≤ s.max_restarts → s'.restarts ≤ s'.max_restarts
  pub same_cap : s'.max_restarts ≡ s.max_restarts
  pub short : All IsShort xs
  pub failed_stops : (s.failed ≡ true → s.watching ≡ false) → s'.failed ≡ true → s'.watching ≡ false

reapplied-Watched :
    (a : Reapply) (reloads : Bool) (s : EngineSupervisor)
    → Watched s (reapplied a reloads s).0 (reapplied a reloads s).1
unfolding give_up
reapplied-Watched nothing reloads s = ground arith
reapplied-Watched missing reloads s = ground arith
reapplied-Watched (adapter n p) true s = ground arith
reapplied-Watched (adapter n p) false s = ground arith

watch_round-Watched :
    (r : Round) (s : EngineSupervisor) → Watched s (watch_round r s).0 (watch_round r s).1
unfolding watch_round
watch_round-Watched r s = ground (
  arith,
  reapplied-Watched (to_reapply r.lora) r.reloads (record s { restarts = s.restarts + 1 }),
)

All-append : (xs ys : List Action) → All IsShort xs → All IsShort ys → All IsShort (xs ++ ys)
All-append [] ys h k = k
All-append (x ∷ xs) ys h k = (h.0, All-append xs ys h.1 k)

Watched-trans :
    (s t u : EngineSupervisor) (xs ys : List Action)
    → Watched s t xs
    → Watched t u ys
    → Watched s u (xs ++ ys)
Watched-trans s t u xs ys h k = record {
  counted = omega (arith, launches_in-append xs ys, h.counted, k.counted);
  capped = λ c. k.capped (h.capped c);
  same_cap = omega (arith, h.same_cap, k.same_cap);
  short = All-append xs ys h.short k.short;
  failed_stops = λ c. k.failed_stops (h.failed_stops c);
}

watch-Watched : (rs : List Round) (s : EngineSupervisor) → Watched s (watch rs s).0 (watch rs s).1
unfolding watch
watch-Watched [] s = ground arith
watch-Watched (r ∷ rs) s =
    Watched-trans s (watch_round r s).0 (watch rs (watch_round r s).0).0 _ _
      (watch_round-Watched r s) (watch-Watched rs (watch_round r s).0)

-- Whatever happens to the backend, a new supervisor launches it at most `max_restarts` times, counts
-- each launch, waits at most thirty seconds before one, and stops watching once it has failed.
pub watch_bounded :
    (max base : ℕ) (rs : List Round)
    → (launches_in (watch rs (new max base)).1 ≤ max)
      × ((watch rs (new max base)).0.restarts ≡ launches_in (watch rs (new max base)).1)
      × All IsShort (watch rs (new max base)).1
      × ((watch rs (new max base)).0.failed ≡ true → (watch rs (new max base)).0.watching ≡ false)
watch_bounded max base rs =
    let h = watch-Watched rs (new max base) in
    (
      omega (arith, h.counted, h.capped (omega arith), h.same_cap),
      omega (arith, h.counted),
      h.short,
      h.failed_stops (λ e. cc),
    )

-- The process is dead, and nobody has stopped the supervisor.
abbrev pub IsDead : Round → Type 0
IsDead r = (r.stopped ≡ false) × (r.alive ≡ false)

failed_stays :
    (rs : List Round) (s : EngineSupervisor)
    → s.watching ≡ false
    → ((watch rs s).0.failed ≡ s.failed) × ((watch rs s).1 ≡ [])
unfolding watch watch_round
failed_stays [] s h = (refl, refl)
failed_stays (r ∷ rs) s h = ground (arith, failed_stays rs s h)

reapplied_ends :
    (a : Reapply) (reloads : Bool) (s : EngineSupervisor)
    → (((reapplied a reloads s).0.failed ≡ true) × ((reapplied a reloads s).0.watching ≡ false))
      ⊎ ((reapplied a reloads s).0 ≡ s)
unfolding give_up
reapplied_ends nothing reloads s = inr refl
reapplied_ends missing reloads s = inl (refl, refl)
reapplied_ends (adapter n p) true s = inr refl
reapplied_ends (adapter n p) false s = inl (refl, refl)

dead_round :
    (r : Round) (s : EngineSupervisor)
    → IsDead r
    → s.watching ≡ true
    → (((watch_round r s).0.failed ≡ true) × ((watch_round r s).0.watching ≡ false))
      ⊎ ((s.restarts < s.max_restarts)
          × ((watch_round r s).0.watching ≡ true)
          × ((watch_round r s).0.restarts ≡ s.restarts + 1)
          × ((watch_round r s).0.max_restarts ≡ s.max_restarts))
unfolding watch_round
dead_round r s d w =
    ground
      (arith, reapplied_ends (to_reapply r.lora) r.reloads (record s { restarts = s.restarts + 1 }))

-- A backend that is found dead more often than the restarts that are left makes the supervisor
-- report a failure.
pub dead_rounds_fail :
    (rs : List Round) (s : EngineSupervisor)
    → s.watching ≡ true
    → All IsDead rs
    → s.max_restarts < s.restarts + length rs
    → s.restarts ≤ s.max_restarts
    → (watch rs s).0.failed ≡ true
unfolding watch
dead_rounds_fail [] s w d more cap = absurd (omega arith)
dead_rounds_fail (r ∷ rs) s w d more cap = elim (dead_round r s d.0 w) [
  | inl (f, stops) ↦ (failed_stays rs (watch_round r s).0 stops).0 ∙ f
  | inr (room, on, one, same) ↦
      dead_rounds_fail rs (watch_round r s).0 on d.1 (omega arith) (omega arith)
]

alive_quiet :
    (rs : List Round) (s : EngineSupervisor)
    → All (λ (q : Round). q.alive ≡ true) rs
    → (watch rs s).1 ≡ []
unfolding watch watch_round
alive_quiet [] s h = refl
alive_quiet (q ∷ rs) s h = rw (alive_quiet rs (watch_round q s).0 h.1) (ground arith)

-- A backend that was launched and is alive, but was not ready in time, never gets its adapter back:
-- as long as it stays alive the supervisor does nothing more.
pub unready_never_reloads :
    (r : Round) (rs : List Round) (s : EngineSupervisor)
    → IsDead r
    → r.launches ≡ true
    → r.ready ≡ false
    → s.watching ≡ true
    → s.restarts < s.max_restarts
    → All (λ (q : Round). q.alive ≡ true) rs
    → (watch (r ∷ rs) s).1 ≡ sleep (backoff (record s { restarts = s.restarts + 1 })) ∷ launch ∷ []
unfolding watch watch_round
unready_never_reloads r rs s d l n w room alive =
    rw (alive_quiet rs (watch_round r s).0 alive) (ground arith)
