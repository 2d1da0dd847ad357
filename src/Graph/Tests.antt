-- ===== src/Graph/Tests.antt =====
-- The theorems on graphs and agents, at a concrete graph and a concrete agent.
use na_ai.Base.{ℕ, ◌≤◌, String, ◌≡◌, refl, ◌≢◌, some, List, [], ◌∷◌, ◌++◌, length}
use na_ai.Base.Result.{Result, ok, err}
use na_ai.Protocol.{OmniMessage, internal, user}
use na_ai.Models.Wire.{WireMessage, omni_to_openai}
use na_ai.Graph.State.{State, Update, partial, nothing, merge}
use na_ai.Graph.Builder.{
  exceeded, unknown_node, Graph, end_name, new, add_node, add_edge, add_conditional_edges, compile,
}
use na_ai.Graph.Builder.Exclusive.{
  Call, node, edge, branch, entry, apply, build, IsExclusive, build-IsExclusive,
}
use na_ai.Graph.Executor.{next, advance, loop, ainvoke}
use na_ai.Graph.Executor.Paths.{Way, here, step, ainvoke_iff}
use na_ai.Graph.Executor.History.{ainvoke-messages}
use na_ai.Graph.Executor.Compiled.{compiled-knows_nodes}
use na_ai.Graph.Agent.{
  ChatResult, Tool, output, agent_graph, call_model, run_tools, route, run_agent,
}
use na_ai.Graph.Agent.Rounds.{Ends, run_agent-Ends}

abbrev empty_state : State ℕ
empty_state = record { messages = []; fields = [] }

abbrev message : OmniMessage
message = record {
  id = "m";
  session_id = "s";
  channel = internal;
  role = user;
  content = "hello";
  tool_calls = [];
  metadata = [];
  created_at = 1;
}

abbrev greeting : Update ℕ
greeting = partial (some (message ∷ [])) (("steps", 2) ∷ [])

-- Node "a" greets and leads to "b", which chooses END over a path map.
abbrev calls : List (Call String ℕ)
calls =
    node "a" (λ s. ok greeting)
    ∷ node "b" (λ s. ok nothing)
    ∷ edge "a" "b"
    ∷ branch "b" (record { router = λ s. ok "done"; path_map = some (("done", end_name) ∷ []) })
    ∷ edge "b" "a"
    ∷ entry "a"
    ∷ []

build-IsExclusive_example : IsExclusive (build calls new)
build-IsExclusive_example = build-IsExclusive calls

abbrev graph : Graph String ℕ
graph = record {
  nodes = ("a", λ s. ok greeting) ∷ ("b", λ s. ok nothing) ∷ [];
  edges = ("a", "b") ∷ [];
  conditional_edges =
      ("b", record { router = λ s. ok "done"; path_map = some (("done", end_name) ∷ []) }) ∷ [];
  entry_point = some "a";
}

-- The second edge out of "b" is refused.
calls-graph : build calls new ≡ graph
unfolding build apply add_node add_edge add_conditional_edges
calls-graph = refl

compile-graph : compile graph ≡ ok graph
unfolding compile
compile-graph = refl

compiled-knows_nodes_example : ainvoke graph 5 empty_state ≢ err (unknown_node "c")
compiled-knows_nodes_example =
    compiled-knows_nodes graph graph "a" 5 empty_state "c" refl compile-graph (refl, tt)

abbrev greeted : State ℕ
greeted = record { messages = message ∷ []; fields = ("steps", 2) ∷ [] }

graph_way : Way graph 2 "a" empty_state end_name greeted
unfolding advance next merge
graph_way = step refl refl (step refl refl here)

ainvoke_iff_example :
    (ainvoke graph 2 empty_state ≡ ok greeted
      → (n : ℕ) × (n ≤ 2) × Way graph n "a" empty_state end_name greeted)
    × ((n : ℕ) × (n ≤ 2) × Way graph n "a" empty_state end_name greeted
        → ainvoke graph 2 empty_state ≡ ok greeted)
ainvoke_iff_example = ainvoke_iff graph 2 "a" empty_state greeted refl

greeted_run : ainvoke graph 2 empty_state ≡ ok greeted
unfolding ainvoke loop advance next merge
greeted_run = refl

one_round_short : ainvoke graph 1 empty_state ≡ err (exceeded "b")
unfolding ainvoke loop advance next merge
one_round_short = refl

kept_messages : (ms : List OmniMessage) × (greeted.messages ≡ [] ++ ms)
kept_messages = ainvoke-messages graph 2 "a" empty_state greeted refl greeted_run

-- A model that always asks for the tool "echo".
abbrev echoing : List WireMessage → Result String ChatResult
echoing ms =
    ok (record {
      content = "";
      tool_calls = record { id = "c"; name = "echo"; arguments = "x" } ∷ [];
    })

abbrev echo : Tool
echo = record { name = "echo"; execute = λ s. output s }

-- Two turns of the model and one of the tools: four messages in all with the user's.
agent_run :
    elim (run_agent echoing
      (λ s. s)
      (echo ∷ [])
      (some "be brief")
      2
      "IndexError"
      (λ n. "id")
      (λ n. n)
      (record { messages = message ∷ []; fields = [] })) [ ok s ↦ length s.messages | err x ↦ 0 ]
    ≡ 4
unfolding run_agent ainvoke loop advance next merge agent_graph call_model run_tools route
    omni_to_openai
agent_run = refl

run_agent-Ends_example : Ends echoing (some "be brief") 2 (
    run_agent echoing
      (λ s. s)
      (echo ∷ [])
      (some "be brief")
      2
      "IndexError"
      (λ n. "id")
      (λ n. n)
      empty_state)
run_agent-Ends_example =
    run_agent-Ends echoing (λ s. s) (echo ∷ []) (some "be brief") 2 "IndexError" (λ n. "id")
      (λ n. n) empty_state
