-- ===== src/Models/Providers/Claude.antt =====
-- The client of Anthropic's models in omniai/models/anthropic.py (AnthropicChatModel.generate).
use na_ai.Base.{ℕ, String, Option, none, some, List, [], ◌∷◌, str_eq, if◌then◌else◌}
use na_ai.Base.Dict.{Dict, lookup, remove}
use na_ai.Base.Result.{Result, ok, err}
use na_ai.Protocol.{ToolCall}
use na_ai.Models.Wire.{WireMessage}
use na_ai.Models.Anthropic.{Turn, or_braces, to_anthropic}
use na_ai.Models.Providers.{
  ProviderResult, ProviderError, unreadable, Usage, or_no_text, prompt_of, completion_of,
  overridden, model_of, reported,
}
use na_ai.Engine.Retry.{Exn, with_retries}
use Prim.Native.String.{◌++◌ as str_append}

-- A block of Anthropic's answer.
pub data ReplyBlock : Type 0 where
  text_reply : Option String → ReplyBlock
  use_reply : Option String → Option String → Option String → ReplyBlock
  other_reply : ReplyBlock

pub record Reply : Type 0 where
  pub content : List ReplyBlock
  pub usage : Option Usage
  pub stop_reason : Option String

abbrev pub texts_of : List ReplyBlock → String
texts_of [] = ""
texts_of (text_reply t ∷ bs) = str_append (or_no_text t) (texts_of bs)
texts_of (_ ∷ bs) = texts_of bs

abbrev pub calls_of : List ReplyBlock → List ToolCall
calls_of [] = []
calls_of (use_reply id name input ∷ bs) =
    record { id = or_no_text id; name = or_no_text name; arguments = or_braces (or_no_text input) }
    ∷ calls_of bs
calls_of (_ ∷ bs) = calls_of bs

pub record AnthropicPayload : Type 0 where
  pub model : String
  pub max_tokens : ℕ
  pub messages : List Turn
  pub options : Dict String
  pub system : Option String
  pub tools : List String

abbrev pub answered : {E : Type 0} → Result Exn Reply → Result (ProviderError E) ProviderResult
answered (ok d) = ok (record {
  content = texts_of d.content;
  tool_calls = calls_of d.content;
  prompt_tokens = prompt_of d.usage;
  completion_tokens = completion_of d.usage;
  stop_reason = d.stop_reason;
})
answered (err x) = err (reported x)

-- `if system:`
abbrev pub unless_empty : String → Option String
unless_empty s = if str_eq s "" then none else some s

module _ {E W : Type 0} (loads : String → Result E String)
    (send : AnthropicPayload → W → Result Exn Reply × W) (retries base_delay max_delay : ℕ) where
  abbrev pub posted :
      String
      → ℕ
      → Dict String
      → List String
      → Result E (String × List Turn)
      → W
      → Result (ProviderError E) ProviderResult × W
  posted model max_tokens options tools (err x) w = (err (unreadable x), w)
  posted model max_tokens options tools (ok (system, turns)) w =
      let payload : AnthropicPayload = record {
        model = model;
        max_tokens = max_tokens;
        messages = turns;
        options = options;
        system = unless_empty system;
        tools = tools;
      } in
      let (r, w', sleeps) = with_retries (send payload) retries base_delay max_delay w in
      (answered r, w')

  -- `AnthropicChatModel.generate`, with `max_tokens` in `kwargs` taken out.
  pub anthropic_generate :
      String
      → ℕ
      → (default_params kwargs : Dict String) → List WireMessage
      → List String
      → W
      → Result (ProviderError E) ProviderResult × W
  anthropic_generate model max_tokens default_params kwargs messages tools w =
      posted (model_of model (lookup "model" kwargs)) max_tokens
        (overridden default_params (remove "model" kwargs)) tools (to_anthropic loads messages) w
