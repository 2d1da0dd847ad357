-- ===== src/Models/Wire.antt =====
-- The canonical wire format of omniai/models/base.py.
use na_ai.Base.{String, Option, none, some, List, [], ◌∷◌, str_eq, if◌then◌else◌}
use na_ai.Base.Dict.{lookup}
use na_ai.Protocol.{Role, system, user, assistant, tool, Value, text, ToolCall, OmniMessage}

-- The three shapes of a message: a tool's output, an assistant turn with calls, and any other. An
-- assistant turn with no text has the content `None`.
pub data WireMessage : Type 0 where
  tool_output : Value → String → WireMessage
  tool_request : Option String → List ToolCall → WireMessage
  plain : Role → String → WireMessage

-- `message.metadata.get("tool_call_id", "")`
abbrev pub or_empty : Option Value → Value
or_empty none = text ""
or_empty (some v) = v

-- `message.content or None`
abbrev pub or_none : String → Option String
or_none s = if str_eq s "" then none else some s

abbrev pub convert_as : Role → List ToolCall → OmniMessage → WireMessage
convert_as tool calls m = tool_output (or_empty (lookup "tool_call_id" m.metadata)) m.content
convert_as assistant (c ∷ cs) m = tool_request (or_none m.content) (c ∷ cs)
convert_as assistant [] m = plain assistant m.content
convert_as system calls m = plain system m.content
convert_as user calls m = plain user m.content

unfoldable pub omni_to_openai : List OmniMessage → List WireMessage
omni_to_openai [] = []
omni_to_openai (m ∷ ms) = convert_as m.role m.tool_calls m ∷ omni_to_openai ms
