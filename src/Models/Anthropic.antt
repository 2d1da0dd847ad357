-- ===== src/Models/Anthropic.antt =====
-- The client of omniai/models/anthropic.py. A JSON object is kept as its text: `loads` is the
-- caller's parser, which gives the object's text back or raises an exception of type `E`.
pub mod Turns
mod Tests
use na_ai.Base.{
  ℕ, String, Bool, true, false, ◌&&◌, not, Option, none, some, List, [], ◌∷◌, ◌++◌, str_eq,
  if◌then◌else◌,
}
use na_ai.Base.Dict.{Dict}
use na_ai.Base.Result.{Result, ok, err, ◌>>=◌, ◌>>◌}
use na_ai.Protocol.{Role, system, user, assistant, tool, Value, text, ToolCall}
use na_ai.Models.Wire.{WireMessage, tool_output, tool_request, plain}
use na_ai.Engine.Retry.{Exn, http_status, with_retries}
use Prim.Native.String.{◌++◌ as str_append}

pub data Block : Type 0 where
  tool_result : Value → String → Block
  text_block : String → Block
  tool_use : String → String → String → Block

pub data Content : Type 0 where
  words : String → Content
  blocks : List Block → Content

pub record Turn : Type 0 where
  pub role : Role
  pub content : Content

-- What a message of the history becomes: a part of the system prompt, or a turn.
pub data Part : Type 0 where
  prompt : String → Part
  turn : Role → Content → Part

-- `message.get("content")`, where a missing one and an empty one count the same.
abbrev pub text_blocks : Option String → List Block
text_blocks none = []
text_blocks (some s) = if str_eq s "" then [] else text_block s ∷ []

-- `fn.get("arguments") or "{}"`
abbrev pub or_braces : String → String
or_braces s = if str_eq s "" then "{}" else s

module _ {E : Type 0} (loads : String → Result E String) where
  pub use_blocks : List ToolCall → Result E (List Block)
  use_blocks [] = ok []
  use_blocks (c ∷ cs) = do
    arguments ← loads (or_braces c.arguments)
    rest ← use_blocks cs
    ok (tool_use c.id c.name arguments ∷ rest)

  -- One round of the loop of `_to_anthropic`; a request without calls is a plain turn.
  pub part_of : WireMessage → Result E Part
  unfolding use_blocks
  part_of (tool_output id s) = ok (turn user (blocks (tool_result id s ∷ [])))
  part_of (tool_request content []) =
      ok (turn assistant (words (elim content [ none ↦ "" | some s ↦ s ])))
  part_of (tool_request content (c ∷ cs)) = do
    uses ← use_blocks (c ∷ cs)
    ok (turn assistant (blocks (text_blocks content ++ uses)))
  part_of (plain system s) = ok (prompt s)
  part_of (plain tool s) = ok (turn user (blocks (tool_result (text "") s ∷ [])))
  part_of (plain user s) = ok (turn user (words s))
  part_of (plain assistant s) = ok (turn assistant (words s))

  pub parts_of : List WireMessage → Result E (List Part)
  parts_of [] = ok []
  parts_of (m ∷ ms) = do p ← part_of m; ps ← parts_of ms; ok (p ∷ ps)

abbrev pub turns_of : List Part → List Turn
turns_of [] = []
turns_of (prompt s ∷ ps) = turns_of ps
turns_of (turn r c ∷ ps) = record { role = r; content = c } ∷ turns_of ps

abbrev pub prompts_of : List Part → List String
prompts_of [] = []
prompts_of (prompt s ∷ ps) = s ∷ prompts_of ps
prompts_of (turn r c ∷ ps) = prompts_of ps

abbrev pub same_role : Role → Role → Bool
same_role system system = true
same_role user user = true
same_role assistant assistant = true
same_role tool tool = true
same_role _ _ = false

abbrev pub as_blocks : Content → List Block
as_blocks (words s) = text_block s ∷ []
as_blocks (blocks bs) = bs

-- A turn joins the last one if it has the same role.
pub add_turn : List Turn → Turn → List Turn
add_turn [] m = m ∷ []
add_turn (x ∷ []) m =
    if same_role x.role m.role
    then record x { content = blocks (as_blocks x.content ++ as_blocks m.content) } ∷ []
    else x ∷ m ∷ []
add_turn (x ∷ (y ∷ xs)) m = x ∷ add_turn (y ∷ xs) m

pub merged : List Turn → List Turn → List Turn
unfolding add_turn
merged done [] = done
merged done (m ∷ ms) = merged (add_turn done m) ms

-- `"\n\n".join(part for part in system_parts if part)`
abbrev pub joined : String → List String → String
joined so_far [] = so_far
joined so_far (p ∷ ps) =
    joined
      (if str_eq p ""
        then so_far
        else (if str_eq so_far "" then p else str_append so_far (str_append "\n\n" p)))
      ps

-- `_to_anthropic`
unfoldable pub to_anthropic :
    {E : Type 0} → (String → Result E String) → List WireMessage → Result E (String × List Turn)
unfolding parts_of merged
to_anthropic loads ms = do
  ps ← parts_of loads ms
  ok (joined "" (prompts_of ps), merged [] (turns_of ps))
