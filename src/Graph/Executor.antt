-- ===== src/Graph/Executor.antt =====
-- The executor of omniai/graph/graph.py: `CompiledGraph`.
pub mod Paths
pub mod History
pub mod Compiled
use na_ai.Base.{
  ℕ, zero, suc, ◌+◌, ◌-◌, ◌*◌, ◌/◌, ◌%◌, ◌^◌, ◌≤◌, ◌<◌, min, max, String, ◌≡◌, refl, sym, ap, ◌∙◌,
  ◌≢◌, ◌↔◌, ◌⊎◌, inl, inr, Bool, true, false, ◌&&◌, ◌||◌, not, Option, none, some, List, [], ◌∷◌,
  ◌++◌, map, arith, str_eq, eq_iff, eq_refl, ltb, leb, ◌==◌, if◌then◌else◌, leb→le, le→leb,
  Bool-cases, Option-cases, truthy, opt_eq, length, take, drop, filter, last?, length-append,
  length-filter, length-take, All, All-map, All-filter, opt_eq→eq, opt_eq_refl,
}
use na_ai.Base.Dict.{Dict, lookup, contains, insert, values}
use na_ai.Base.Result.{Result, ok, err}
use na_ai.Protocol.{OmniMessage, reply}
use na_ai.Graph.State.{State, Update, merge}
use na_ai.Graph.Builder.{
  Error, unknown_node, not_in_path_map, exceeded, raised, no_entry_point, NodeFn, Branch, Graph,
  end_name,
}

abbrev pub translate :
    {E : Type 0} → String → Option (Dict String) → String → Result (Error E) String
translate current none target = ok target
translate current (some m) target = elim (lookup target m) [
  | none ↦ err (not_in_path_map current target)
  | some t ↦ ok t
]

abbrev pub routed :
    {E : Type 0} → String → Option (Dict String) → Result E String → Result (Error E) String
routed current m (ok target) = translate current m target
routed current m (err x) = err (raised x)

-- `self.graph.edges.get(current, END)`
abbrev pub or_end : Option String → String
or_end none = end_name
or_end (some t) = t

abbrev pub reply_with : String → ℕ → OmniMessage → Option OmniMessage → OmniMessage
reply_with new_id now m none = reply new_id now m ""
reply_with new_id now m (some l) = record (reply new_id now m l.content) {
  tool_calls = l.tool_calls;
}

module _ {E V : Type 0} where
  -- `state.merge(result)`, or the node's exception.
  abbrev pub merged : Result E (Update V) → State V → Result (Error E) (State V)
  merged (ok u) s = ok (merge u s)
  merged (err x) s = err (raised x)

  -- `_run_node`, given what `self.graph.nodes` holds under the name.
  abbrev pub run_found : String → Option (NodeFn E V) → State V → Result (Error E) (State V)
  run_found name none s = err (unknown_node name)
  run_found name (some fn) s = merged (fn s) s

  abbrev pub next_by :
      String → Option (Branch E V) → Option String → State V → Result (Error E) String
  next_by current (some b) edge s = routed current b.path_map (b.router s)
  next_by current none edge s = ok (or_end edge)

  -- `_next`
  unfoldable pub next : Graph E V → String → State V → Result (Error E) String
  next g current s = next_by current (lookup current g.conditional_edges) (lookup current g.edges) s

  abbrev pub chosen : Result (Error E) String → State V → Result (Error E) (String × State V)
  chosen (ok t) s = ok (t, s)
  chosen (err x) s = err x

  abbrev pub follow :
      Graph E V → String → Result (Error E) (State V) → Result (Error E) (String × State V)
  follow g current (err x) = err x
  follow g current (ok s) = chosen (next g current s) s

  -- One round of the loop in `ainvoke` at a node that is not END: run it and choose the next one.
  unfoldable pub advance : Graph E V → String → State V → Result (Error E) (String × State V)
  unfolding next
  advance g current s = follow g current (run_found current (lookup current g.nodes) s)

  abbrev pub at_end : String → State V → Result (Error E) (State V)
  at_end current s = if str_eq current end_name then ok s else err (exceeded current)

  -- The loop of `ainvoke` with the rounds that are left, and the test behind it.
  unfoldable pub loop : Graph E V → ℕ → String → State V → Result (Error E) (State V)
  loop g zero current s = at_end current s
  loop g (suc left) current s =
      if str_eq current end_name
      then ok s
      else elim (advance g current s) [ ok (target, s') ↦ loop g left target s' | err x ↦ err x ]

  -- `ainvoke` of a graph with an entry point; `compile` has checked that there is one.
  abbrev pub ainvoke_from : Option String → Graph E V → ℕ → State V → Result (Error E) (State V)
  ainvoke_from none g max_iterations s = err no_entry_point
  ainvoke_from (some entry) g max_iterations s = loop g max_iterations entry s

  unfoldable pub ainvoke : Graph E V → ℕ → State V → Result (Error E) (State V)
  ainvoke g max_iterations s = ainvoke_from g.entry_point g max_iterations s

  abbrev pub answered :
      String → ℕ → OmniMessage → Result (Error E) (State V) → Result (Error E) OmniMessage
  answered new_id now m (ok s) = ok (reply_with new_id now m (last? s.messages))
  answered new_id now m (err x) = err x

  -- The handler of `as_handler`: a fresh state with the message alone, and the last message's text.
  pub handle : Graph E V → ℕ → String → ℕ → OmniMessage → Result (Error E) OmniMessage
  unfolding ainvoke
  handle g max_iterations new_id now m =
      answered new_id now m (ainvoke g max_iterations (record { messages = m ∷ []; fields = [] }))
