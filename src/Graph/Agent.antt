-- ===== src/Graph/Agent.antt =====
-- The tool-calling agent of omniai/graph/agent.py. The chat model is the parameter `generate`; a tool
-- is a function of the arguments' text that returns its output, a schema error, or another exception.
pub mod Rounds
use na_ai.Base.{
  ℕ, zero, suc, ◌+◌, ◌-◌, ◌*◌, ◌/◌, ◌%◌, ◌^◌, ◌≤◌, ◌<◌, min, max, String, ◌≡◌, refl, sym, ap, ◌∙◌,
  ◌≢◌, ◌↔◌, ◌⊎◌, inl, inr, Bool, true, false, ◌&&◌, ◌||◌, not, Option, none, some, List, [], ◌∷◌,
  ◌++◌, map, arith, str_eq, eq_iff, eq_refl, ltb, leb, ◌==◌, if◌then◌else◌, leb→le, le→leb,
  Bool-cases, Option-cases, truthy, opt_eq, length, take, drop, filter, last?, length-append,
  length-filter, length-take, All, All-map, All-filter, opt_eq→eq, opt_eq_refl, filter-nil,
  All-append_left, All-append_right,
}
use Prim.Native.String.{◌++◌ as str_append}
use na_ai.Base.Dict.{Dict, lookup, contains, insert, values}
use na_ai.Base.Result.{Result, ok, err}
use na_ai.Protocol.{
  Role, system, user, assistant, tool, Channel, internal, Value, text, ToolCall, OmniMessage,
}
use na_ai.Models.Wire.{WireMessage, plain, omni_to_openai}
use na_ai.Graph.State.{State, Update, nothing, partial, merge}
use na_ai.Graph.Builder.{Error, NodeFn, Branch, Graph, end_name, compile, new}
use na_ai.Graph.Executor.{ainvoke}

-- `crashed` has the text `type(exc).__name__: exc` of the exception.
pub data ToolResult : Type 0 where
  output : String → ToolResult
  invalid : String → ToolResult
  crashed : String → ToolResult

pub record Tool : Type 0 where
  pub name : String
  pub execute : String → ToolResult

-- What the agent uses of a provider's `ChatResult`.
pub record ChatResult : Type 0 where
  pub content : String
  pub tool_calls : List ToolCall

-- `{t.name: t for t in tools}`
abbrev pub tool_map : List Tool → Dict Tool → Dict Tool
tool_map [] d = d
tool_map (t ∷ ts) d = tool_map ts (insert t.name t d)

abbrev pub result_text : ToolResult → String
result_text (output s) = s
result_text (invalid s) = str_append "error: invalid arguments: " s
result_text (crashed s) = str_append "error: " s

-- The output of one call: an unknown tool and a failing one are reported, not raised.
abbrev pub call_output : (String → String) → ToolCall → Option Tool → String
call_output repr c none = str_append "error: unknown tool " (repr c.name)
call_output repr c (some t) = result_text (t.execute c.arguments)

abbrev pub steps_of : Option ℕ → ℕ
steps_of none = 0
steps_of (some n) = n

-- `state.steps`
abbrev pub steps : State ℕ → ℕ
steps s = steps_of (lookup "steps" s.fields)

abbrev pub session_of : Option OmniMessage → String
session_of none = "default"
session_of (some m) = m.session_id

-- `if system_prompt and (not messages or messages[0]["role"] != "system")`
abbrev pub has_system : List WireMessage → Bool
has_system (plain system s ∷ ms) = true
has_system _ = false

abbrev pub prompt_text : Option String → String
prompt_text none = ""
prompt_text (some s) = s

abbrev pub with_system : Option String → List WireMessage → List WireMessage
with_system prompt ms =
    if truthy prompt && not (has_system ms) then plain system (prompt_text prompt) ∷ ms else ms

abbrev pub is_calling : List ToolCall → Bool
is_calling [] = false
is_calling (c ∷ cs) = true

-- The caller's parts: the model, the tools, Python's `repr`, what indexing an empty list raises,
-- and the identifiers and times that new messages get.
module _ {E : Type 0} (generate : List WireMessage → Result E ChatResult) (repr : String → String)
    (tools : List Tool) (system_prompt : Option String) (max_steps : ℕ) (index_error : E)
    (new_id : ℕ → String) (now : ℕ → ℕ) where
  abbrev pub assistant_message : State ℕ → ChatResult → OmniMessage
  assistant_message s r = record {
    id = new_id (length s.messages);
    session_id = session_of (last? s.messages);
    channel = internal;
    role = assistant;
    content = r.content;
    tool_calls = r.tool_calls;
    metadata = [];
    created_at = now (length s.messages);
  }

  abbrev pub recorded : State ℕ → Result E ChatResult → Result E (Update ℕ)
  recorded s (ok r) = ok (partial (some (assistant_message s r ∷ [])) (("steps", steps s + 1) ∷ []))
  recorded s (err x) = err x

  unfoldable pub call_model : NodeFn E ℕ
  call_model s = recorded s (generate (with_system system_prompt (omni_to_openai s.messages)))

  abbrev pub tool_message : OmniMessage → ℕ → ToolCall → OmniMessage
  tool_message l n c = record {
    id = new_id n;
    session_id = l.session_id;
    channel = internal;
    role = tool;
    content = call_output repr c (lookup c.name (tool_map tools []));
    tool_calls = [];
    metadata = ("tool_call_id", text c.id) ∷ ("tool_name", text c.name) ∷ [];
    created_at = now n;
  }

  abbrev pub tool_messages : OmniMessage → ℕ → List ToolCall → List OmniMessage
  tool_messages l n [] = []
  tool_messages l n (c ∷ cs) = tool_message l n c ∷ tool_messages l (n + 1) cs

  abbrev pub run_calls : ℕ → Option OmniMessage → Result E (Update ℕ)
  run_calls n none = err index_error
  run_calls n (some l) = ok (partial (some (tool_messages l n l.tool_calls)) [])

  unfoldable pub run_tools : NodeFn E ℕ
  run_tools s = run_calls (length s.messages) (last? s.messages)

  abbrev pub route_last : ℕ → Option OmniMessage → Result E String
  route_last n none = err index_error
  route_last n (some l) =
      ok (if is_calling l.tool_calls && ltb n max_steps then "tools" else end_name)

  unfoldable pub route : State ℕ → Result E String
  route s = route_last (steps s) (last? s.messages)

  -- The graph that `create_tool_agent` builds.
  unfoldable pub agent_graph : Graph E ℕ
  unfolding call_model run_tools route
  agent_graph = record {
    nodes = ("model", call_model) ∷ ("tools", run_tools) ∷ [];
    edges = ("tools", "model") ∷ [];
    conditional_edges = ("model", record { router = route; path_map = none }) ∷ [];
    entry_point = some "model";
  }

  -- The agent: the compiled graph with `max_iterations=2 * max_steps + 2`.
  unfoldable pub run_agent : State ℕ → Result (Error E) (State ℕ)
  unfolding agent_graph
  run_agent s = ainvoke agent_graph (2 * max_steps + 2) s
