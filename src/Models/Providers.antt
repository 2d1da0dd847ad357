-- ===== src/Models/Providers.antt =====
-- The clients of chat models in omniai/models/openai.py and omniai/models/engine.py. A request is
-- sent by the caller's `send`; of an answer's JSON the model keeps what the code reads. `loads`
-- checks a JSON text and gives its object, kept as a text.
pub mod Claude
mod Tests
use na_ai.Base.{
  ℕ, String, Bool, true, false, Option, none, some, List, [], ◌∷◌, ◌++◌, str_eq, if◌then◌else◌,
}
use na_ai.Base.Dict.{Dict, lookup, insert, remove}
use na_ai.Base.Result.{Result, ok, err}
use na_ai.Protocol.{ToolCall}
use na_ai.Models.Wire.{WireMessage}
use na_ai.Models.Anthropic.{Turn, or_braces, to_anthropic}
use na_ai.Engine.Retry.{Exn, http_status, with_retries}
use Prim.Native.String.{◌++◌ as str_append}

-- `ChatResult`, less the raw answer.
pub record ProviderResult : Type 0 where
  pub content : String
  pub tool_calls : List ToolCall
  pub prompt_tokens : ℕ
  pub completion_tokens : ℕ
  pub stop_reason : Option String

pub data ProviderError (E : Type 0) : Type 0 where
  unreadable : E → ProviderError E
  model_error : ℕ → ProviderError E
  raised : Exn → ProviderError E
  no_choices : ProviderError E

pub record Usage : Type 0 where
  pub prompt : ℕ
  pub completion : ℕ

abbrev pub or_no_text : Option String → String
or_no_text none = ""
or_no_text (some s) = s

abbrev pub prompt_of : Option Usage → ℕ
prompt_of none = 0
prompt_of (some u) = u.prompt

abbrev pub completion_of : Option Usage → ℕ
completion_of none = 0
completion_of (some u) = u.completion

-- `{**default_params, **kwargs}`
abbrev pub overridden : Dict String → Dict String → Dict String
overridden defaults [] = defaults
overridden defaults ((k, v) ∷ kwargs) = overridden (insert k v defaults) kwargs

-- `kwargs.pop("model", self.model)`
abbrev pub model_of : String → Option String → String
model_of model none = model
model_of model (some m) = m

-- The providers' exception for a status of the server; other exceptions pass.
abbrev pub reported : {E : Type 0} → Exn → ProviderError E
reported (http_status code) = model_error code
reported x = raised x

-- A tool call of an answer in OpenAI's format.
pub record RawCall : Type 0 where
  pub id : Option String
  pub name : Option String
  pub arguments : Option String

-- The object `{"__unparsed__": raw}`, as `unparsed raw`, where the arguments are no JSON.
abbrev pub parsed : {E : Type 0} → (String → String) → String → Result E String → String
parsed unparsed raw (ok arguments) = arguments
parsed unparsed raw (err x) = unparsed raw

module _ {E : Type 0} (loads : String → Result E String) (unparsed : String → String) where
  pub parse_call : RawCall → ToolCall
  parse_call c = record {
    id = or_no_text c.id;
    name = or_no_text c.name;
    arguments =
        parsed unparsed (or_braces (or_no_text c.arguments))
          (loads (or_braces (or_no_text c.arguments)));
  }

  unfoldable pub parse_openai_tool_calls : List RawCall → List ToolCall
  unfolding parse_call
  parse_openai_tool_calls [] = []
  parse_openai_tool_calls (c ∷ cs) = parse_call c ∷ parse_openai_tool_calls cs

-- A choice of an answer: its message, and why it ended.
pub record Choice : Type 0 where
  pub content : Option String
  pub tool_calls : List RawCall
  pub finish_reason : Option String

pub record Completion : Type 0 where
  pub choices : List Choice
  pub usage : Option Usage

pub record OpenAiPayload : Type 0 where
  pub model : String
  pub messages : List WireMessage
  pub options : Dict String
  pub tools : List String

module _ {E : Type 0} (loads : String → Result E String) (unparsed : String → String) where
  -- `data["choices"][0]` and what is read of it, also by `EngineChatModel.generate`.
  abbrev pub first_choice : Option Usage → List Choice → Result (ProviderError E) ProviderResult
  first_choice usage [] = err no_choices
  first_choice usage (c ∷ cs) = ok (record {
    content = or_no_text c.content;
    tool_calls = parse_openai_tool_calls loads unparsed c.tool_calls;
    prompt_tokens = prompt_of usage;
    completion_tokens = completion_of usage;
    stop_reason = c.finish_reason;
  })

  abbrev pub completed : Result Exn Completion → Result (ProviderError E) ProviderResult
  completed (ok d) = first_choice d.usage d.choices
  completed (err x) = err (reported x)

  -- `OpenAIChatModel.generate`; a tool is its schema, and a keyword argument is a text.
  pub openai_generate :
      {W : Type 0}
      → (OpenAiPayload → W → Result Exn Completion × W)
      → (retries base_delay max_delay : ℕ) → String
      → (default_params kwargs : Dict String) → List WireMessage
      → List String
      → W
      → Result (ProviderError E) ProviderResult × W
  openai_generate send retries base_delay max_delay model default_params kwargs messages tools w =
      let payload : OpenAiPayload = record {
        model = model_of model (lookup "model" kwargs);
        messages = messages;
        options = overridden default_params (remove "model" kwargs);
        tools = tools;
      } in
      let (r, w', sleeps) = with_retries (send payload) retries base_delay max_delay w in
      (completed r, w')

  abbrev pub chat_completed : Result Exn Completion → Result (ProviderError E) ProviderResult
  chat_completed (ok d) = first_choice d.usage d.choices
  chat_completed (err x) = err (raised x)

  -- `EngineChatModel.generate`; `chat` is the engine's.
  pub engine_generate :
      {W : Type 0}
      → (List WireMessage → List String → W → Result Exn Completion × W)
      → List WireMessage
      → List String
      → W
      → Result (ProviderError E) ProviderResult × W
  engine_generate chat messages tools w =
      let (r, w') = chat messages tools w in (chat_completed r, w')
