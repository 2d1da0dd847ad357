-- ===== src/Memory/Curation/Scores.antt =====
-- The judge of omniai/memory/curation.py: its own function, or an engine's reply. `loads` reads the
-- score of a JSON object, and `search` finds the one that a reply names otherwise.
use na_ai.Base.{ℕ, String, Bool, Option, none, some}
use na_ai.Base.Texts.{prefix, rest_after}
use na_ai.Base.Result.{Result, ok, err}
use na_ai.Models.Structured.{left_stripped, right_stripped, stripped, unfenced}
use Prim.Native.Char.{Char}

abbrev pub or_zero : Option ℕ → ℕ
or_zero none = 0
or_zero (some s) = s

module _ (is_space : Char → Bool) (loads search : String → Option ℕ) where
  abbrev pub or_search : String → Option ℕ → ℕ
  or_search s (some n) = n
  or_search s none = or_zero (search s)

  -- `_extract_score`
  unfoldable pub extract_score : String → ℕ
  unfolding left_stripped right_stripped prefix rest_after
  extract_score text = let s = unfenced is_space (stripped is_space text) in or_search s (loads s)

  module _ {E W : Type 0} (prompt : String → String → String)
      (chat_text : String → W → Result E String × W) where
    abbrev pub read_score : Result E String × W → Result E ℕ × W
    read_score (ok text, w) = (ok (extract_score text), w)
    read_score (err x, w) = (err x, w)

    -- `score`: the caller's function if there is one; `prompt` fills in JUDGE_PROMPT.
    unfoldable pub score :
        Option (String → String → W → Result E ℕ × W) → String → String → W → Result E ℕ × W
    unfolding extract_score
    score (some judge_fn) instruction reply w = judge_fn instruction reply w
    score none instruction reply w = read_score (chat_text (prompt instruction reply) w)
