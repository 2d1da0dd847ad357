-- ===== src/Graph/Tools.antt =====
-- The tools of omniai/graph/tools.py, and the tool that the agent runs. The schema that is made of a
-- function's signature is a parameter: its JSON, and what it accepts; `loads` reads a JSON text.
mod Tests
use na_ai.Base.{String, Option, none, some}
use na_ai.Base.Result.{Result, ok, err, ◌>>=◌, ◌>>◌}
use na_ai.Graph.Agent.{ToolResult, output, invalid, crashed}
use na_ai.Graph.Agent as Agent
use Prim.Native.String.{◌++◌ as str_append}

-- `ToolValidationError`, with its text.
pub data ToolError : Type 0 where
  validation_error : String → ToolError
  raised : String → ToolError

pub record OpenaiTool : Type 0 where
  pub name : String
  pub description : String
  pub parameters : String

module _ (A : Type 0) where
  pub data Arguments : Type 0 where
    json_text : String → Arguments
    object : A → Arguments

  -- A tool: the JSON of its schema, the schema's validation of an object, and the function, whose
  -- result is the text that the agent makes of it, or the text of an exception.
  pub record Tool : Type 0 where
    pub name : String
    pub description : String
    pub schema : String
    pub model_validate : A → Result String A
    pub fn : A → Result String String

module _ {A : Type 0} (loads : String → Result String A) where
  abbrev pub or_not_json : Result String A → Result ToolError A
  or_not_json (ok a) = ok a
  or_not_json (err x) = err (validation_error (str_append "Arguments are not valid JSON: " x))

  abbrev pub read : Arguments A → Result ToolError A
  read (json_text s) = or_not_json (loads s)
  read (object a) = ok a

  abbrev pub or_refused : Result String A → Result ToolError A
  or_refused (ok a) = ok a
  or_refused (err x) = err (validation_error x)

  -- `validate_args`
  unfoldable pub validate_args : Tool A → Arguments A → Result ToolError A
  validate_args t arguments = do a ← read arguments; or_refused (t.model_validate a)

  abbrev pub or_raised : Result String String → Result ToolError String
  or_raised (ok s) = ok s
  or_raised (err x) = err (raised x)

  -- `execute`
  unfoldable pub execute : Tool A → Arguments A → Result ToolError String
  unfolding validate_args
  execute t arguments = do kwargs ← validate_args t arguments; or_raised (t.fn kwargs)

  abbrev pub tool_result : Result ToolError String → ToolResult
  tool_result (ok s) = output s
  tool_result (err (validation_error x)) = invalid x
  tool_result (err (raised x)) = crashed x

  -- The tool as the agent runs it: on a call's arguments.
  pub agent_tool : Tool A → Agent.Tool
  unfolding execute
  agent_tool t = record { name = t.name; execute = λ s. tool_result (execute t (json_text s)) }

-- `to_openai`, with the schema without its title.
abbrev pub to_openai : {A : Type 0} → (String → String) → Tool A → OpenaiTool
to_openai untitled t = record {
  name = t.name;
  description = t.description;
  parameters = untitled t.schema;
}
