-- ===== src/Protocol.antt =====
-- The canonical message of omniai/protocol.py. Identifiers and times that the source draws are
-- arguments; a dynamic value of the metadata is a text, a list of texts, `None`, or something else.
use na_ai.Base.{ℕ, String, List, [], ◌∷◌}
use na_ai.Base.Dict.{Dict}

pub data Role : Type 0 where
  system user assistant tool : Role

pub data Channel : Type 0 where
  rest websocket discord internal : Channel

pub data Value : Type 0 where
  text : String → Value
  texts : List String → Value
  null : Value
  opaque : ℕ → Value

-- The object of the arguments is kept as its JSON text.
pub record ToolCall : Type 0 where
  pub id : String
  pub name : String
  pub arguments : String

pub record OmniMessage : Type 0 where
  pub id : String
  pub session_id : String
  pub channel : Channel
  pub role : Role
  pub content : String
  pub tool_calls : List ToolCall
  pub metadata : Dict Value
  pub created_at : ℕ

-- `reply`, with the identifier and the time of the new message.
abbrev pub reply : String → ℕ → OmniMessage → String → OmniMessage
reply new_id now m content = record {
  id = new_id;
  session_id = m.session_id;
  channel = m.channel;
  role = assistant;
  content = content;
  tool_calls = [];
  metadata = ("in_reply_to", text m.id) ∷ [];
  created_at = now;
}

-- `OmniMessage.to_openai`
abbrev pub to_openai : OmniMessage → Role × String
to_openai m = (m.role, m.content)
