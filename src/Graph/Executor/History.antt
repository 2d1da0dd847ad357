-- ===== src/Graph/Executor/History.antt =====
-- A run only adds messages (CompiledGraph.ainvoke, State.merge).
use na_ai.Base.{ℕ, String, ◌≡◌, sym, ap, ◌∙◌, Option, none, some, List, [], ◌++◌}
use na_ai.Base.Dict.{lookup}
use na_ai.Base.Result.{Result, ok, err}
use na_ai.Protocol.{OmniMessage}
use na_ai.Graph.State.{State, Update, merge, merge-messages}
use na_ai.Graph.Builder.{Error, NodeFn, Graph}
use na_ai.Graph.Executor.{merged, run_found, next, chosen, follow, advance, ainvoke}
use na_ai.Graph.Executor.Paths.{Way, here, step, ainvoke_iff}
use mathlib.Core.List.{append-nil, append_assoc}
use mathlib.Core.Path.{subst}

-- The messages of the second state are those of the first and some more.
abbrev Extends : {V : Type 0} → State V → State V → Type 0
Extends s u = (ms : List OmniMessage) × (u.messages ≡ s.messages ++ ms)

trans-Extends : {V : Type 0} (s u v : State V) → Extends s u → Extends u v → Extends s v
trans-Extends s u v (ms, p) (ns, q) =
    (ms ++ ns, q ∙ ap (λ l. l ++ ns) p ∙ append_assoc s.messages ms ns)

module _ {E V : Type 0} where
  merged-Extends :
      (r : Result E (Update V)) (s u : State V)
      → ◌≡◌ {A = Result (Error E) (State V)} (merged r s) (ok u)
      → Extends s u
  merged-Extends (ok x) s u h =
      let q : merge x s ≡ u = cc in subst (Extends s) q (merge-messages x s)
  merged-Extends (err x) s u h = absurd (cc)

  run_found-Extends :
      (c : String) (fn : Option (NodeFn E V)) (s u : State V)
      → run_found c fn s ≡ ok u
      → Extends s u
  run_found-Extends c none s u h = absurd (cc)
  run_found-Extends c (some fn) s u h = merged-Extends (fn s) s u h

  chosen_state :
      (r : Result (Error E) String) (s u : State V) (t : String) → chosen r s ≡ ok (t, u) → s ≡ u
  chosen_state (ok x) s u t h = cc
  chosen_state (err x) s u t h = absurd (cc)

  follow_state :
      (g : Graph E V) (c : String) (r : Result (Error E) (State V)) (u : State V) (t : String)
      → follow g c r ≡ ok (t, u)
      → r ≡ ok u
  follow_state g c (ok s) u t h = ap ok (chosen_state (next g c s) s u t h)
  follow_state g c (err x) u t h = absurd (cc)

  advance-Extends :
      (g : Graph E V) (c t : String) (s u : State V) → advance g c s ≡ ok (t, u) → Extends s u
  unfolding advance
  advance-Extends g c t s u h =
      run_found-Extends c (lookup c g.nodes) s u
        (follow_state g c (run_found c (lookup c g.nodes) s) u t h)

  way-Extends :
      (g : Graph E V) {n : ℕ} {c d : String} {s v : State V} → Way g n c s d v → Extends s v
  way-Extends g (here {s = s}) = ([], sym (append-nil s.messages))
  way-Extends g (step {c = c} {t = t} {s = s} {u = u} {v = v} no_end move rest) =
      trans-Extends s u v (advance-Extends g c t s u move) (way-Extends g rest)

-- What a run returns begins with the messages that it was started with, in their order: whatever the
-- nodes return, none is dropped or changed.
pub ainvoke-messages :
    {E V : Type 0} (g : Graph E V) (max_iterations : ℕ) (entry : String) (s v : State V)
    → g.entry_point ≡ some entry
    → ainvoke g max_iterations s ≡ ok v
    → (ms : List OmniMessage) × (v.messages ≡ s.messages ++ ms)
ainvoke-messages g max_iterations entry s v e h =
    let (n, le, way) = (ainvoke_iff g max_iterations entry s v e).0 h in way-Extends g way
