-- ===== src/Graph/Builder.antt =====
-- The graph builder of omniai/graph/graph.py. Nodes and routers are the caller's functions, which may
-- raise an exception of type `E`; the field values are of type `V`.
pub mod Exclusive
use na_ai.Base.{
  ℕ, zero, suc, ◌+◌, ◌-◌, ◌*◌, ◌/◌, ◌%◌, ◌^◌, ◌≤◌, ◌<◌, min, max, String, ◌≡◌, refl, sym, ap, ◌∙◌,
  ◌≢◌, ◌↔◌, ◌⊎◌, inl, inr, Bool, true, false, ◌&&◌, ◌||◌, not, Option, none, some, List, [], ◌∷◌,
  ◌++◌, map, arith, str_eq, eq_iff, eq_refl, ltb, leb, ◌==◌, if◌then◌else◌, leb→le, le→leb,
  Bool-cases, Option-cases, truthy, opt_eq, length, take, drop, filter, last?, length-append,
  length-filter, length-take, All, All-map, All-filter, opt_eq→eq, opt_eq_refl,
}
use na_ai.Base.Dict.{Dict, lookup, contains, insert, values}
use na_ai.Base.Result.{Result, ok, err}
use na_ai.Graph.State.{State, Update}

abbrev pub start_name : String
start_name = "__start__"

abbrev pub end_name : String
end_name = "__end__"

-- What building or running a graph raises: a `GraphError`, by its cause, or the caller's exception.
-- The unknown targets are in the order of the edges, where the source sorts them.
pub data Error (E : Type 0) : Type 0 where
  reserved : String → Error E
  node_exists : String → Error E
  has_conditional : String → Error E
  has_static : String → Error E
  no_entry_point : Error E
  unknown_targets : List String → Error E
  unknown_node : String → Error E
  not_in_path_map : String → String → Error E
  exceeded : String → Error E
  raised : E → Error E

-- `if path_map: referenced.update(path_map.values())`
abbrev pub branch_targets : Option (Dict String) → List String
branch_targets none = []
branch_targets (some m) = values m

module _ (E V : Type 0) where
  abbrev pub NodeFn : Type 0
  NodeFn = State V → Result E (Update V)

  pub record Branch : Type 0 where
    pub router : State V → Result E String
    pub path_map : Option (Dict String)

  pub record Graph : Type 0 where
    pub nodes : Dict (State V → Result E (Update V))
    pub edges : Dict String
    pub conditional_edges : Dict Branch
    pub entry_point : Option String

module _ {E V : Type 0} where
  abbrev pub new : Graph E V
  new = record { nodes = []; edges = []; conditional_edges = []; entry_point = none }

  unfoldable pub add_node : String → NodeFn E V → Graph E V → Result (Error E) (Graph E V)
  add_node name fn g =
      if str_eq name start_name || str_eq name end_name
      then err (reserved name)
      else (if contains name g.nodes
          then err (node_exists name)
          else ok (record g { nodes = insert name fn g.nodes }))

  abbrev pub set_entry_point : String → Graph E V → Graph E V
  set_entry_point name g = record g { entry_point = some name }

  unfoldable pub add_edge : String → String → Graph E V → Result (Error E) (Graph E V)
  add_edge source target g =
      if str_eq source start_name
      then ok (set_entry_point target g)
      else (if contains source g.conditional_edges
          then err (has_conditional source)
          else ok (record g { edges = insert source target g.edges }))

  unfoldable pub add_conditional_edges :
      String → Branch E V → Graph E V → Result (Error E) (Graph E V)
  add_conditional_edges source branch g =
      if contains source g.edges
      then err (has_static source)
      else ok (record g { conditional_edges = insert source branch g.conditional_edges })

  abbrev pub all_branch_targets : List (Branch E V) → List String
  all_branch_targets [] = []
  all_branch_targets (b ∷ bs) = branch_targets b.path_map ++ all_branch_targets bs

  abbrev pub referenced : String → Graph E V → List String
  referenced entry g = entry ∷ (values g.edges ++ all_branch_targets (values g.conditional_edges))

  -- `r != END and r not in self.nodes`
  abbrev pub is_unknown : Graph E V → String → Bool
  is_unknown g r = not (str_eq r end_name) && not (contains r g.nodes)

  abbrev pub checked : Graph E V → List String → Result (Error E) (Graph E V)
  checked g [] = ok g
  checked g (r ∷ rs) = err (unknown_targets (r ∷ rs))

  abbrev pub compile_from : Option String → Graph E V → Result (Error E) (Graph E V)
  compile_from none g = err no_entry_point
  compile_from (some entry) g = checked g (filter (is_unknown g) (referenced entry g))

  -- The checks of `compile`; the compiled graph refers to the graph itself.
  unfoldable pub compile : Graph E V → Result (Error E) (Graph E V)
  compile g = compile_from g.entry_point g
