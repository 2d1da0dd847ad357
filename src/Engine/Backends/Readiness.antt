-- ===== src/Engine/Backends/Readiness.antt =====
-- How long an adapter waits for its server (BackendAdapter.wait_ready, OllamaAdapter.wait_ready).
use na_ai.Base.{
  ap, arith, inl, inr, Bool-cases, ℕ, zero, suc, ◌+◌, ◌≤◌, ◌<◌, ◌≡◌, Bool, true, false, Option,
  none, some, leb, ◌==◌, if◌then◌else◌,
}

-- The clock of the event loop, the health endpoint's status or its failure, and a pause.
pub record Polling (W : Type 0) : Type 0 where
  pub time : W → ℕ
  pub get_health : W → Option ℕ × W
  pub pause : ℕ → W → W

abbrev pub is_healthy : Option ℕ → Bool
is_healthy none = false
is_healthy (some status) = status == 200

module _ {W : Type 0} (io : Polling W) (interval deadline : ℕ) where
  -- The loop of `wait_ready` on fuel: `none` where the fuel does not do.
  unfoldable pub poll : ℕ → W → Option Bool × W
  poll zero w = (none, w)
  poll (suc fuel) w =
      let (status, w1) = io.get_health w in
      let later = poll fuel (io.pause interval w1) in
      if leb deadline (io.time w)
      then (some false, w)
      else (if is_healthy status then (some true, w1) else later)

-- `wait_ready`, with as many rounds as there are ticks until the deadline, and one more.
unfoldable pub wait_ready : {W : Type 0} → Polling W → (timeout interval : ℕ) → W → Option Bool × W
unfolding poll
wait_ready io timeout interval w = poll io interval (io.time w + timeout) (suc timeout) w

-- `OllamaAdapter.wait_ready`: the model is pulled once the server is up, and the answer is whether
-- the pull ended with the code 0.
abbrev pub pulled : {W : Type 0} → (W → ℕ × W) → Option Bool × W → Option Bool × W
pulled pull (some true, w) = let (code, w') = pull w in (some (code == 0), w')
pulled pull (r, w) = (r, w)

pub ollama_wait_ready :
    {W : Type 0} → Polling W → (W → ℕ × W) → (timeout interval : ℕ) → W → Option Bool × W
ollama_wait_ready io pull timeout interval w = pulled pull (wait_ready io timeout interval w)

-- The clock does not go back, and a pause takes its time.
pub record IsClock {W : Type 0} (io : Polling W) : Type 0 where
  pub health_later : (w : W) → io.time w ≤ io.time (io.get_health w).1
  pub pause_later : (interval : ℕ) (w : W) → io.time w + interval ≤ io.time (io.pause interval w)

-- What `wait_ready` comes to: an answer 200 to a request made before the deadline, or the deadline.
pub data Outcome {W : Type 0} (io : Polling W) (deadline : ℕ) : Option Bool × W → Type 0 where
  ready :
      (w : W)
      → io.time w < deadline
      → (io.get_health w).0 ≡ some 200
      → Outcome io deadline (some true, (io.get_health w).1)
  late : (w : W) → deadline ≤ io.time w → Outcome io deadline (some false, w)

module _ {W : Type 0} (io : Polling W) (clock : IsClock io) (interval deadline : ℕ)
    (positive : 1 ≤ interval) where
  answered_200 : (status : Option ℕ) → is_healthy status ≡ true → status ≡ some 200
  answered_200 none h = absurd (cc)
  answered_200 (some s) h = ap some (ground arith)

  poll-Outcome :
      (fuel : ℕ) (w : W)
      → deadline ≤ io.time w + fuel
      → Outcome io deadline (poll io interval deadline (suc fuel) w)
  unfolding poll
  poll-Outcome zero w h = rw (leb_of h) (late w (omega (arith, h)))
    where
      leb_of : deadline ≤ io.time w + 0 → leb deadline (io.time w) ≡ true
      leb_of q = ground arith
  poll-Outcome (suc fuel) w h = elim (Bool-cases (leb deadline (io.time w))) [
    | inl over ↦ rw over (late w (ground arith))
    | inr before ↦ elim (Bool-cases (is_healthy (io.get_health w).0)) [
      | inl healthy ↦ rw (before, healthy) (ready w (ground arith) (answered_200 _ healthy))
      | inr not_yet ↦
          rw (before, not_yet)
            (poll-Outcome fuel (io.pause interval (io.get_health w).1)
              (omega (arith, clock.health_later w, clock.pause_later interval (io.get_health w).1)))
    ]
  ]

-- With a clock that does not go back and a pause of at least one tick, `wait_ready` comes to an end:
-- it answers that the server is ready right after an answer 200 to a request that was made before the
-- deadline, and that it is not once the deadline has passed.
pub wait_ready-Outcome :
    {W : Type 0} (io : Polling W) (timeout interval : ℕ) (w : W)
    → IsClock io
    → 1 ≤ interval
    → Outcome io (io.time w + timeout) (wait_ready io timeout interval w)
unfolding wait_ready
wait_ready-Outcome io timeout interval w clock positive =
    poll-Outcome io clock interval (io.time w + timeout) positive timeout w (omega arith)
