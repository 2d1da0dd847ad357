-- ===== src/Models/Structured.antt =====
-- Structured output (omniai/models/structured.py). The chat model `generate` acts on a world `W`;
-- `validate` is the schema's validation of a JSON text, and its error is a text.
pub mod Attempts
mod Tests
use na_ai.Base.{
  ℕ, zero, suc, ◌+◌, ◌-◌, String, Bool, true, false, Option, none, some, List, [], ◌∷◌, ◌++◌,
  str_eq, ltb, ◌==◌, if◌then◌else◌,
}
use na_ai.Base.Result.{Result, ok, err}
use na_ai.Base.Texts.{characters, prefix, rest_after}
use Prim.Native.Char.{Char, code}
use Prim.Native.String.{◌++◌ as str_append}

pub record Message : Type 0 where
  pub role : String
  pub content : String

-- What is raised: an exception of the model, or `StructuredOutputError` with the last error.
pub data Failure (X : Type 0) : Type 0 where
  model_raised : X → Failure X
  exhausted : String → Failure X

-- `text.find(c)` and `text.rfind(c)`
abbrev pub counted_up : Option ℕ → Option ℕ
counted_up none = none
counted_up (some i) = some (i + 1)

pub find : ℕ → String → Option ℕ
find c String.[] = none
find c (String.◌∷◌ d s) = let rest = find c s in if code d == c then some 0 else counted_up rest

abbrev pub last_of : Option ℕ → Bool → Option ℕ
last_of (some i) here = some (i + 1)
last_of none true = some 0
last_of none false = none

pub rfind : ℕ → String → Option ℕ
rfind c String.[] = none
rfind c (String.◌∷◌ d s) = last_of (rfind c s) (code d == c)

-- `text[start : end + 1]` if both braces are there in this order.
abbrev pub object_in : Option ℕ → Option ℕ → String → String
object_in (some start) (some end) s =
    if ltb start end then prefix (end + 1 - start) (rest_after start s) else s
object_in _ _ s = s

module _ (taken : Char → Bool) where
  -- `text.strip(chars)`
  unfoldable pub left_stripped : String → String
  left_stripped String.[] = ""
  left_stripped (String.◌∷◌ c s) =
      let rest = left_stripped s in if taken c then rest else String.◌∷◌ c s

  unfoldable pub right_stripped : String → String
  right_stripped String.[] = ""
  right_stripped (String.◌∷◌ c s) =
      let rest = right_stripped s in
      if str_eq rest "" then (if taken c then "" else String.◌∷◌ c "") else String.◌∷◌ c rest

  abbrev pub stripped : String → String
  stripped s = right_stripped (left_stripped s)

abbrev pub is_backtick : Char → Bool
is_backtick c = code c == b'`'

abbrev pub starts_with : String → String → Bool
starts_with p s = str_eq (prefix (characters p) s) p

abbrev pub without_prefix : String → String → String
without_prefix p s = if starts_with p s then rest_after (characters p) s else s

-- A reply without the fences of a code block around it.
abbrev pub unfenced : (Char → Bool) → String → String
unfenced is_space s =
    if starts_with "```" s
    then stripped is_space (without_prefix "json" (stripped is_backtick s))
    else s

-- `_extract_json`
unfoldable pub extract_json : (Char → Bool) → String → String
unfolding find rfind left_stripped right_stripped prefix rest_after
extract_json is_space text =
    let t = unfenced is_space (stripped is_space text) in object_in (find b'{' t) (rfind b'}' t) t

module _ {W T X : Type 0} (is_space : Char → Bool)
    (generate : List Message → W → Result X String × W) (validate : String → Result String T) where
  -- The answer and the complaint that an invalid reply adds.
  abbrev pub complained : String → String → List Message
  complained reply problem =
      record { role = "assistant"; content = reply }
      ∷ record {
        role = "user";
        content =
            str_append "That response was invalid: "
              (str_append problem "\nRespond again with ONLY valid JSON matching the schema.");
      }
      ∷ []

  -- One round: the model's result, what its reply is validated to, and the rounds behind it.
  abbrev pub judged :
      Result String T
      → String
      → List Message
      → W
      → (String → List Message → W → Result (Failure X) T × W)
      → Result (Failure X) T × W
  judged (ok t) reply conversation w rest = (ok t, w)
  judged (err problem) reply conversation w rest =
      rest problem (conversation ++ complained reply problem) w

  abbrev pub attempted :
      Result X String × W
      → List Message
      → (String → List Message → W → Result (Failure X) T × W)
      → Result (Failure X) T × W
  attempted (err x, w) conversation rest = (err (model_raised x), w)
  attempted (ok reply, w) conversation rest =
      judged (validate (extract_json is_space reply)) reply conversation w rest

  -- The loop with `left` rounds left.
  unfoldable pub attempt : (left : ℕ) → String → List Message → W → Result (Failure X) T × W
  attempt zero last_error conversation w = (err (exhausted last_error), w)
  attempt (suc left) last_error conversation w =
      attempted (generate conversation w) conversation (attempt left)

  -- `invoke`, on a conversation as messages.
  unfoldable pub invoke :
      (max_retries : ℕ) (instruction : Message) → List Message → W → Result (Failure X) T × W
  unfolding attempt
  invoke max_retries instruction messages w =
      attempt (suc max_retries) "no attempts made" (instruction ∷ messages) w
