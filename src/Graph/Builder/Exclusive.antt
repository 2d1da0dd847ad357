-- ===== src/Graph/Builder/Exclusive.antt =====
-- What the builder rules out (Graph.add_node, .add_edge, .add_conditional_edges).
use na_ai.Base.{String, ◌≡◌, refl, true, false, List, [], ◌∷◌, arith, eq_iff}
use na_ai.Base.Dict.{contains, contains-insert}
use na_ai.Base.Result.{Result, ok, err}
use na_ai.Graph.Builder.{
  Error, NodeFn, Branch, Graph, start_name, end_name, new, add_node, set_entry_point, add_edge,
  add_conditional_edges,
}

-- The calls that build a graph.
pub data Call (E V : Type 0) : Type 0 where
  node : String → NodeFn E V → Call E V
  edge : String → String → Call E V
  branch : String → Branch E V → Call E V
  entry : String → Call E V

module _ {E V : Type 0} where
  -- A source has a static edge or a conditional one, not both, and no node has a reserved name.
  pub record IsExclusive (g : Graph E V) : Type 0 where
    pub one_kind : (k : String) → contains k g.edges ≡ true → contains k g.conditional_edges ≡ false
    pub no_start : contains start_name g.nodes ≡ false
    pub no_end : contains end_name g.nodes ≡ false

  abbrev pub built : Result (Error E) (Graph E V) → Graph E V → Graph E V
  built (ok g') g = g'
  built (err x) g = g

  -- A call that raises `GraphError` changes nothing.
  unfoldable pub apply : Call E V → Graph E V → Graph E V
  apply (node name fn) g = built (add_node name fn g) g
  apply (edge source target) g = built (add_edge source target g) g
  apply (branch source b) g = built (add_conditional_edges source b g) g
  apply (entry name) g = set_entry_point name g

  unfoldable pub build : List (Call E V) → Graph E V → Graph E V
  build [] g = g
  build (c ∷ cs) g = build cs (apply c g)

  add_node-IsExclusive :
      (name : String) (fn : NodeFn E V) (g : Graph E V)
      → IsExclusive g
      → IsExclusive (built (add_node name fn g) g)
  unfolding add_node
  add_node-IsExclusive name fn g h = record {
    one_kind = λ k e. ground (arith, h.one_kind k);
    no_start = ground (arith, h.no_start, contains-insert name start_name fn g.nodes);
    no_end = ground (arith, h.no_end, contains-insert name end_name fn g.nodes);
  }

  add_edge-IsExclusive :
      (source target : String) (g : Graph E V)
      → IsExclusive g
      → IsExclusive (built (add_edge source target g) g)
  unfolding add_edge
  add_edge-IsExclusive source target g h = record {
    one_kind = λ k e.
        ground (arith, h.one_kind k, contains-insert source k target g.edges, eq_iff source k);
    no_start = ground (arith, h.no_start);
    no_end = ground (arith, h.no_end);
  }

  add_conditional_edges-IsExclusive :
      (source : String) (b : Branch E V) (g : Graph E V)
      → IsExclusive g
      → IsExclusive (built (add_conditional_edges source b g) g)
  unfolding add_conditional_edges
  add_conditional_edges-IsExclusive source b g h = record {
    one_kind = λ k e.
        ground
          (arith, h.one_kind k, contains-insert source k b g.conditional_edges, eq_iff source k);
    no_start = ground (arith, h.no_start);
    no_end = ground (arith, h.no_end);
  }

  apply-IsExclusive : (c : Call E V) (g : Graph E V) → IsExclusive g → IsExclusive (apply c g)
  unfolding apply
  apply-IsExclusive (node name fn) g h = add_node-IsExclusive name fn g h
  apply-IsExclusive (edge source target) g h = add_edge-IsExclusive source target g h
  apply-IsExclusive (branch source b) g h = add_conditional_edges-IsExclusive source b g h
  apply-IsExclusive (entry name) g h = record {
    one_kind = h.one_kind;
    no_start = h.no_start;
    no_end = h.no_end;
  }

  build-IsExclusive' :
      (cs : List (Call E V)) (g : Graph E V) → IsExclusive g → IsExclusive (build cs g)
  unfolding build
  build-IsExclusive' [] g h = h
  build-IsExclusive' (c ∷ cs) g h = build-IsExclusive' cs (apply c g) (apply-IsExclusive c g h)

  -- After any calls on a new graph, those that raise included, no source has both a static and a
  -- conditional edge, and no node is named like START or END.
  pub build-IsExclusive : (cs : List (Call E V)) → IsExclusive (build cs new)
  build-IsExclusive cs =
      build-IsExclusive' cs new (record { one_kind = λ k e. refl; no_start = refl; no_end = refl })
