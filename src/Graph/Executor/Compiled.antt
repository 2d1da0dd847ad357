-- ===== src/Graph/Executor/Compiled.antt =====
-- What a graph that `compile` accepts cannot do (Graph.compile, CompiledGraph.ainvoke).
use na_ai.Base.{
  ℕ, zero, suc, String, ◌≡◌, refl, sym, ap, ◌∙◌, ◌≢◌, inl, inr, Bool, true, false, Option, none,
  some, List, [], ◌∷◌, arith, str_eq, Bool-cases, filter, All, filter-nil, All-append_left,
  All-append_right,
}
use na_ai.Base.Dict.{Dict, lookup, contains, values, All-lookup}
use na_ai.Base.Result.{Result, ok, err}
use na_ai.Graph.State.{State, Update}
use na_ai.Graph.Builder.{
  Error, unknown_node, not_in_path_map, exceeded, raised, NodeFn, Branch, Graph, end_name,
  branch_targets, all_branch_targets, referenced, is_unknown, checked, compile_from, compile,
}
use na_ai.Graph.Executor.{
  merged, run_found, translate, routed, next_by, next, follow, chosen, advance, at_end, loop,
  ainvoke_from, ainvoke,
}
use mathlib.Core.Path.{subst}

abbrev pub has_map : Option (Dict String) → Bool
has_map none = false
has_map (some m) = true

-- Every conditional edge has a path map.
abbrev pub IsMapped : {E V : Type 0} → Graph E V → Type 0
IsMapped {E} {V} g =
    All (λ (b : Branch E V). has_map b.path_map ≡ true) (values g.conditional_edges)

abbrev IsKnown : {E V : Type 0} → Graph E V → String → Type 0
IsKnown g r = is_unknown g r ≡ false

-- Every target that the graph states is known.
record IsClosed {E V : Type 0} (g : Graph E V) : Type 0 where
  edge_targets : All (IsKnown g) (values g.edges)
  branches : All (IsKnown g) (all_branch_targets (values g.conditional_edges))

abbrev IsFineError : {E : Type 0} → Error E → Type 0
IsFineError (unknown_node n) = ⊥
IsFineError _ = Unit

-- A known target, or an error other than that of an unknown node.
abbrev IsFine : {E V : Type 0} → Graph E V → Result (Error E) String → Type 0
IsFine g (ok t) = IsKnown g t
IsFine g (err x) = IsFineError x

abbrev IsFineMove : {E V : Type 0} → Graph E V → Result (Error E) (String × State V) → Type 0
IsFineMove g (ok (t, u)) = IsKnown g t
IsFineMove g (err x) = IsFineError x

module _ {E V : Type 0} where
  checked-ok : (g g' : Graph E V) (rs : List String) → checked g rs ≡ ok g' → rs ≡ []
  checked-ok g g' [] h = refl
  checked-ok g g' (r ∷ rs) h = absurd (cc)

  compiled-IsClosed :
      (g g' : Graph E V) (entry : String)
      → g.entry_point ≡ some entry
      → compile g ≡ ok g'
      → IsKnown g entry × IsClosed g
  unfolding compile
  compiled-IsClosed g g' entry e h =
      let c : compile_from (some entry) g ≡ ok g' = sym (ap (λ o. compile_from o g) e) ∙ h in
      let (known, rest) =
        filter-nil (is_unknown g) (referenced entry g)
          (checked-ok g g' (filter (is_unknown g) (referenced entry g)) c) in
      (
        known,
        record {
          edge_targets = All-append_left _ (values g.edges) _ rest;
          branches = All-append_right _ (values g.edges) _ rest;
        },
      )

  branch-IsClosed :
      (P : String → Type 0) (bs : List (Branch E V))
      → All P (all_branch_targets bs)
      → All (λ (b : Branch E V). All P (branch_targets b.path_map)) bs
  branch-IsClosed P [] h = tt
  branch-IsClosed P (b ∷ bs) h = (
    All-append_left P (branch_targets b.path_map) _ h,
    branch-IsClosed P bs (All-append_right P (branch_targets b.path_map) _ h),
  )

  -- The router's exception passes; a target outside the path map is an error of its own.
  translate-IsFine :
      (g : Graph E V) (current target : String) (m : Dict String)
      → All (IsKnown g) (values m)
      → IsFine g (translate current (some m) target)
  translate-IsFine g current target m h = go (lookup target m) refl
    where
      go :
          (o : Option String)
          → lookup target m ≡ o
          → IsFine g (elim o [ none ↦ err (not_in_path_map current target) | some t ↦ ok t ])
      go none e = tt
      go (some t) e = All-lookup (IsKnown g) target m h e

  routed-IsFine :
      (g : Graph E V) (current : String) (m : Option (Dict String)) (r : Result E String)
      → has_map m ≡ true
      → All (IsKnown g) (branch_targets m)
      → IsFine g (routed current m r)
  routed-IsFine g current none r k h = absurd (cc)
  routed-IsFine g current (some m) (ok target) k h = translate-IsFine g current target m h
  routed-IsFine g current (some m) (err x) k h = tt

  next_by-IsFine :
      (g : Graph E V) (current : String) (s : State V) (b : Option (Branch E V))
      (edge : Option String)
      → IsClosed g
      → IsMapped g
      → lookup current g.conditional_edges ≡ b
      → lookup current g.edges ≡ edge
      → IsFine g (next_by current b edge s)
  next_by-IsFine g current s (some b) edge c m eb ee =
      routed-IsFine g current b.path_map (b.router s)
        (All-lookup _ current g.conditional_edges m eb)
        (All-lookup _ current g.conditional_edges (branch-IsClosed (IsKnown g) _ c.branches) eb)
  next_by-IsFine g current s none (some t) c m eb ee =
      All-lookup _ current g.edges c.edge_targets ee
  next_by-IsFine g current s none none c m eb ee = refl

  next-IsFine :
      (g : Graph E V) (current : String) (s : State V)
      → IsClosed g
      → IsMapped g
      → IsFine g (next g current s)
  unfolding next
  next-IsFine g current s c m =
      next_by-IsFine g current s (lookup current g.conditional_edges) (lookup current g.edges) c m
        refl refl

  merged-IsFine :
      (r : Result E (Update V)) (s : State V) (x : Error E) → merged r s ≡ err x → IsFineError x
  merged-IsFine (ok u) s x h = absurd (cc)
  merged-IsFine (err y) s x h = let q : raised y ≡ x = cc in subst IsFineError q tt

  at_end-IsFine :
      (current : String) (s : State V) (x : Error E) → at_end current s ≡ err x → IsFineError x
  at_end-IsFine current s x h = elim (Bool-cases (str_eq current end_name)) [
    | inl done ↦ absurd (ground arith)
    | inr more ↦ let q : exceeded current ≡ x = ground arith in subst IsFineError q tt
  ]

  moved :
      (g : Graph E V) (s : State V) (r : Result (Error E) String)
      → IsFine g r
      → IsFineMove g (chosen r s)
  moved g s (ok t) h = h
  moved g s (err x) h = h

  follow-IsFine :
      (g : Graph E V) (current : String) (r : Result (Error E) (State V))
      → ((x : Error E) → r ≡ err x → IsFineError x)
      → IsClosed g
      → IsMapped g
      → IsFineMove g (follow g current r)
  follow-IsFine g current (err x) f c m = f x refl
  follow-IsFine g current (ok s) f c m = moved g s (next g current s) (next-IsFine g current s c m)

  run-IsFine :
      (g : Graph E V) (current : String) (s : State V) (fn : Option (NodeFn E V)) (x : Error E)
      → contains current g.nodes ≡ true
      → lookup current g.nodes ≡ fn
      → run_found current fn s ≡ err x
      → IsFineError x
  run-IsFine g current s none x k e h = absurd (ground arith)
  run-IsFine g current s (some fn) x k e h = merged-IsFine (fn s) s x h

  advance-IsFine :
      (g : Graph E V) (current : String) (s : State V)
      → IsClosed g
      → IsMapped g
      → IsKnown g current
      → str_eq current end_name ≡ false
      → IsFineMove g (advance g current s)
  unfolding advance
  advance-IsFine g current s c m known no_end =
      follow-IsFine g current (run_found current (lookup current g.nodes) s)
        (λ x e. run-IsFine g current s (lookup current g.nodes) x (ground arith) refl e) c m

  loop-IsFine :
      (g : Graph E V) (k : ℕ) (current : String) (s : State V)
      → IsClosed g
      → IsMapped g
      → IsKnown g current
      → (x : Error E) → loop g k current s ≡ err x
      → IsFineError x
  unfolding loop
  loop-IsFine g zero current s c m known x e = at_end-IsFine current s x e
  loop-IsFine g (suc k) current s c m known x e = elim (Bool-cases (str_eq current end_name)) [
    | inl done ↦ absurd (ground arith)
    | inr no_end ↦
        go (advance g current s) (advance-IsFine g current s c m known no_end)
          (λ t u kt. loop-IsFine g k t u c m kt x) (rw no_end at e)
  ]
    where
      go :
          (r : Result (Error E) (String × State V))
          → IsFineMove g r
          → ((t : String) (u : State V) → IsKnown g t → loop g k t u ≡ err x → IsFineError x)
          → elim r [ ok (t, u) ↦ loop g k t u | err y ↦ err y ] ≡ err x
          → IsFineError x
      go (ok (t, u)) f ih h = ih t u f h
      go (err y) f ih h = let q : y ≡ x = cc in subst IsFineError q f

-- A graph that `compile` accepts and whose conditional edges all have path maps never fails for an
-- unknown node, whatever its nodes and routers return.
pub compiled-knows_nodes :
    {E V : Type 0} (g g' : Graph E V) (entry : String) (max_iterations : ℕ) (s : State V)
    (n : String)
    → g.entry_point ≡ some entry
    → compile g ≡ ok g'
    → IsMapped g
    → ainvoke g max_iterations s ≢ err (unknown_node n)
unfolding ainvoke
compiled-knows_nodes g g' entry max_iterations s n e c m h =
    let (known, closed) = compiled-IsClosed g g' entry e c in
    loop-IsFine g max_iterations entry s closed m known (unknown_node n)
      (sym (ap (λ o. ainvoke_from o g max_iterations s) e) ∙ h)
