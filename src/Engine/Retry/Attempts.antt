-- ===== src/Engine/Retry/Attempts.antt =====
-- How often `with_retries` runs its operation, and which outcome it passes on.
use na_ai.Base.{
  ℕ, zero, suc, ◌+◌, ◌-◌, ◌≤◌, ◌<◌, ◌≡◌, refl, ap, ◌⊎◌, inl, inr, Bool, true, false, ◌||◌, not,
  List, [], ◌∷◌, arith, ◌==◌, Bool-cases, length, All,
}
use na_ai.Base.Result.{Result, ok, err}
use na_ai.Engine.Retry.{Exn, is_transient, round, retry_loop, with_retries}

-- An outcome after which there is no retry: a value, or an error that is not transient.
abbrev pub is_final : {A : Type 0} → Result Exn A → Bool
is_final (ok a) = true
is_final (err e) = not (is_transient e)

-- An operation whose outcomes are laid down in advance; its state counts the runs.
abbrev pub scripted : {A : Type 0} → (ℕ → Result Exn A) → ℕ → Result Exn A × ℕ
scripted script n = (script n, n + 1)

-- What a run that began at count `n` with `attempts` rounds has done: it stopped at the first final
-- outcome or at its last round, passed that outcome on, and slept once between two runs.
pub record Stopped {A : Type 0} (script : ℕ → Result Exn A) (attempts n : ℕ)
    (r : Result Exn A × ℕ × List ℕ) : Type 0 where
  pub started : n + 1 ≤ r.1
  pub bounded : r.1 ≤ n + attempts
  pub outcome : r.0 ≡ script (r.1 - 1)
  pub earlier : (j : ℕ) → n ≤ j → j + 1 < r.1 → is_final (script j) ≡ false
  pub stopped : r.1 < n + attempts → is_final (script (r.1 - 1)) ≡ true
  pub slept : n + length r.2 + 1 ≡ r.1

round-final :
    {S A : Type 0} (r : Result Exn A) (s : S) (left bound : ℕ) (rest : Result Exn A × S × List ℕ)
    → (is_final r ≡ true) ⊎ (left ≡ 0)
    → round r s (left == 0) bound rest ≡ (r, s, [])
unfolding round
round-final (ok a) s left bound rest h = refl
round-final (err e) s left bound rest h = ground arith

round-retry :
    {S A : Type 0} (r : Result Exn A) (s : S) (left bound : ℕ) (rest : Result Exn A × S × List ℕ)
    → is_final r ≡ false
    → round r s (suc left == 0) bound rest ≡ (rest.0, rest.1, bound ∷ rest.2)
unfolding round
round-retry (ok a) s left bound rest h = cc
round-retry (err e) s left bound rest h = ground arith

module _ {A : Type 0} (script : ℕ → Result Exn A) (base_delay max_delay : ℕ) where
  final_at :
      (n left : ℕ)
      → (is_final (script n) ≡ true) ⊎ (left ≡ 0)
      → n + 1 < n + suc left
      → is_final (script (n + 1 - 1)) ≡ true
  final_at n left (inl f) more = let e : n + 1 - 1 ≡ n = omega arith in rw e f
  final_at n left (inr z) more = absurd (omega arith)

  stop_now :
      (left n bound : ℕ) (rest : Result Exn A × ℕ × List ℕ)
      → (is_final (script n) ≡ true) ⊎ (left ≡ 0)
      → Stopped script (suc left) n (round (script n) (n + 1) (left == 0) bound rest)
  stop_now left n bound rest h = rw (round-final (script n) (n + 1) left bound rest h) (record {
    started = omega arith;
    bounded = omega arith;
    outcome = ap script (omega arith);
    earlier = λ j lo hi. absurd (omega arith);
    stopped = λ more. final_at n left h more;
    slept = omega arith;
  })

  go_on :
      (left n bound : ℕ) (rest : Result Exn A × ℕ × List ℕ)
      → is_final (script n) ≡ false
      → Stopped script (suc left) (n + 1) rest
      → Stopped script (suc (suc left)) n (round (script n) (n + 1) (suc left == 0) bound rest)
  go_on left n bound rest h st = rw (round-retry (script n) (n + 1) left bound rest h) (record {
    started = omega arith;
    bounded = omega arith;
    outcome = st.outcome;
    earlier = λ j lo hi. elim (Bool-cases (j == n)) [
      | inl here ↦ ground arith
      | inr later ↦ st.earlier j (ground arith) hi
    ];
    stopped = λ more. st.stopped (omega arith);
    slept = omega arith;
  })

  loop_stops :
      (left attempt n : ℕ)
      → Stopped script
          (suc left)
          n
          (retry_loop (scripted script) base_delay max_delay (suc left) attempt n)
  unfolding retry_loop
  loop_stops zero attempt n = stop_now zero n _ _ (inr refl)
  loop_stops (suc left) attempt n = elim (Bool-cases (is_final (script n))) [
    | inl f ↦ stop_now (suc left) n _ _ (inl f)
    | inr m ↦ go_on left n _ _ m (loop_stops left (attempt + 1) (n + 1))
  ]

-- An operation run under `with_retries` with at least one attempt is run at least once and at most
-- `attempts` times. The runs before the last one all failed transiently, the outcome of the last run
-- is what the caller gets, a run short of the last attempt is the last only if it returned or failed
-- for good, and there is one sleep between two runs.
pub with_retries-Stopped :
    {A : Type 0} (script : ℕ → Result Exn A) (attempts base_delay max_delay : ℕ)
    → 0 < attempts
    → Stopped script attempts 0 (with_retries (scripted script) attempts base_delay max_delay 0)
unfolding with_retries
with_retries-Stopped script zero base_delay max_delay h = absurd (omega arith)
with_retries-Stopped script (suc left) base_delay max_delay h =
    loop_stops script base_delay max_delay left 0 0

round_capped :
    {S A : Type 0} (r : Result Exn A) (s : S) (is_last : Bool) (bound cap : ℕ)
    (rest : Result Exn A × S × List ℕ)
    → bound ≤ cap
    → All (λ d. d ≤ cap) rest.2
    → All (λ d. d ≤ cap) (round r s is_last bound rest).2
unfolding round
round_capped (ok a) s is_last bound cap rest h hs = tt
round_capped (err e) s is_last bound cap rest h hs =
    elim (Bool-cases (not (is_transient e) || is_last)) [
      | inl stops ↦ rw stops tt
      | inr retries ↦ rw retries (h, hs)
    ]

loop_capped :
    {S A : Type 0} (fn : S → Result Exn A × S) (base_delay max_delay left attempt : ℕ) (s : S)
    → All (λ d. d ≤ max_delay) (retry_loop fn base_delay max_delay left attempt s).2
unfolding retry_loop
loop_capped fn base_delay max_delay zero attempt s = tt
loop_capped fn base_delay max_delay (suc left) attempt s =
    round_capped (fn s).0 (fn s).1 _ _ max_delay _ (omega arith)
      (loop_capped fn base_delay max_delay left (attempt + 1) (fn s).1)

-- No sleep between two attempts is longer than `max_delay`, however many attempts there are and
-- whatever the operation does.
pub with_retries-delays :
    {S A : Type 0} (fn : S → Result Exn A × S) (attempts base_delay max_delay : ℕ) (s : S)
    → All (λ d. d ≤ max_delay) (with_retries fn attempts base_delay max_delay s).2
unfolding with_retries
with_retries-delays fn attempts base_delay max_delay s =
    loop_capped fn base_delay max_delay attempts 0 s

-- An outcome that is final ends the attempts at once.
pub with_retries-final :
    {S A : Type 0} (fn : S → Result Exn A × S) (attempts base_delay max_delay : ℕ) (s s' : S)
    (r : Result Exn A)
    → 0 < attempts
    → fn s ≡ (r, s')
    → is_final r ≡ true
    → with_retries fn attempts base_delay max_delay s ≡ (r, s', [])
unfolding with_retries retry_loop
with_retries-final fn zero base_delay max_delay s s' r p h f = absurd (omega arith)
with_retries-final fn (suc left) base_delay max_delay s s' r p h f =
    rw h (round-final r s' left _ _ (inl f))
