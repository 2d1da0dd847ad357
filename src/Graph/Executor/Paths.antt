-- ===== src/Graph/Executor/Paths.antt =====
-- A run of the executor is a path of the graph, and the other way round (CompiledGraph.ainvoke).
use na_ai.Base.{
  ℕ, zero, suc, ◌≤◌, String, ◌≡◌, refl, sym, ap, ◌∙◌, ◌↔◌, inl, inr, true, false, some, arith,
  str_eq, eq_iff, Bool-cases,
}
use na_ai.Base.Result.{Result, ok, err}
use na_ai.Graph.State.{State}
use na_ai.Graph.Builder.{Error, Graph, end_name}
use na_ai.Graph.Executor.{advance, loop, ainvoke_from, ainvoke}
use mathlib.Core.Path.{subst}

module _ {E V : Type 0} (g : Graph E V) where
  -- A way through the graph in so many rounds: END is never left.
  pub data Way : ℕ → String → State V → String → State V → Type 0 where
    here : {c : String} {s : State V} → Way zero c s c s
    step :
        {n : ℕ} {c t d : String} {s u v : State V}
        → str_eq c end_name ≡ false
        → advance g c s ≡ ok (t, u)
        → Way n t u d v
        → Way (suc n) c s d v

  loop-end : (k : ℕ) (s : State V) → loop g k end_name s ≡ ok s
  unfolding loop
  loop-end zero s = refl
  loop-end (suc k) s = refl

  -- A way to END that fits into the rounds is the one that the loop takes.
  loop_complete :
      {n : ℕ} {c : String} {s v : State V} (k : ℕ)
      → Way n c s end_name v
      → n ≤ k
      → loop g k c s ≡ ok v
  unfolding loop
  loop_complete k here h = loop-end k _
  loop_complete zero (step no_end move rest) h = absurd (omega arith)
  loop_complete (suc k) (step no_end move rest) h =
      rw (no_end, move) (loop_complete k rest (omega arith))

  pub loop-step :
      (k : ℕ) (c : String) (s : State V)
      → str_eq c end_name ≡ false
      → loop g (suc k) c s ≡ elim (advance g c s) [ ok (t, u) ↦ loop g k t u | err x ↦ err x ]
  unfolding loop
  loop-step k c s e = ground arith

  step_sound :
      (k : ℕ) (c : String) (s v : State V)
      → ((t : String) (u : State V)
          → loop g k t u ≡ ok v
          → (n : ℕ) × (n ≤ k) × Way n t u end_name v)
      → str_eq c end_name ≡ false
      → (r : Result (Error E) (String × State V)) → advance g c s ≡ r
      → elim r [ ok (t, u) ↦ loop g k t u | err x ↦ err x ] ≡ ok v
      → (n : ℕ) × (n ≤ suc k) × Way n c s end_name v
  step_sound k c s v ih no_end (ok (t, u)) e h =
      let (n, le, way) = ih t u h in (suc n, omega arith, step no_end e way)
  step_sound k c s v ih no_end (err x) e h = absurd (cc)

  arrive :
      (c : String) (s v : State V)
      → str_eq c end_name ≡ true
      → ◌≡◌ {A = Result (Error E) (State V)} (ok s) (ok v)
      → Way zero c s end_name v
  arrive c s v e h =
      let q : s ≡ v = cc in
      subst (λ x. Way zero c s x v) ((eq_iff c end_name).0 e) (subst (λ y. Way zero c s c y) q here)

  loop-zero : (c : String) (s v : State V) → loop g zero c s ≡ ok v → str_eq c end_name ≡ true
  unfolding loop
  loop-zero c s v h = ground arith

  pub loop-done :
      (k : ℕ) (c : String) (s : State V) → str_eq c end_name ≡ true → loop g k c s ≡ ok s
  unfolding loop
  loop-done zero c s e = ground arith
  loop-done (suc k) c s e = ground arith

  -- What the loop returns, it has reached END with, on a way of at most so many rounds.
  loop_sound :
      (k : ℕ) (c : String) (s v : State V)
      → loop g k c s ≡ ok v
      → (n : ℕ) × (n ≤ k) × Way n c s end_name v
  loop_sound zero c s v h =
      let e = loop-zero c s v h in (0, omega arith, arrive c s v e (sym (loop-done zero c s e) ∙ h))
  loop_sound (suc k) c s v h = elim (Bool-cases (str_eq c end_name)) [
    | inl e ↦ (0, omega arith, arrive c s v e (sym (loop-done (suc k) c s e) ∙ h))
    | inr no_end ↦
        step_sound k c s v (λ t u. loop_sound k t u v) no_end (advance g c s) refl
          (sym (loop-step k c s no_end) ∙ h)
  ]

-- With an entry point, the graph returns a state exactly when some way of at most `max_iterations`
-- node runs leads from the entry point to END with that state.
pub ainvoke_iff :
    {E V : Type 0} (g : Graph E V) (max_iterations : ℕ) (entry : String) (s v : State V)
    → g.entry_point ≡ some entry
    → (ainvoke g max_iterations s ≡ ok v)
      ↔ ((n : ℕ) × (n ≤ max_iterations) × Way g n entry s end_name v)
unfolding ainvoke
ainvoke_iff g max_iterations entry s v e =
    let start : ainvoke g max_iterations s ≡ loop g max_iterations entry s =
      ap (λ o. ainvoke_from o g max_iterations s) e in
    (
      λ h. loop_sound g max_iterations entry s v (sym start ∙ h),
      λ (n, le, way). start ∙ loop_complete g max_iterations way le,
    )
