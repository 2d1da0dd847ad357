-- ===== src/Evals/Gate.antt =====
-- The gate of omniai/evals/gate.py. An accuracy and a tolerance are fractions, which are compared
-- exactly; the engine's `chat_text` and the JSON parser are parameters. Of a call's arguments it
-- matters whether they equal the expected ones.
pub mod Verdicts
mod Tests
use na_ai.Base.{
  ℕ, zero, suc, ◌+◌, ◌-◌, ◌*◌, String, Bool, true, false, Option, none, some, List, [], ◌∷◌, str_eq,
  leb, if◌then◌else◌, length,
}
use na_ai.Base.Result.{Result, ok, err, ◌>>=◌, ◌>>◌}
use na_ai.Base.Texts.{prefix, rest_after}
use na_ai.Models.Structured.{left_stripped, right_stripped, stripped, unfenced}
use Prim.Native.Char.{Char}

pub record Fraction : Type 0 where
  pub parts : ℕ
  pub whole : ℕ

module _ (Args : Type 0) where
  pub record GoldenCase : Type 0 where
    pub prompt : String
    pub expected_tool : String
    pub expected_args : Option Args

  -- What `json.loads` makes of a reply: an object with its fields `tool`, where that is a text, and
  -- `arguments`, another value, or an error.
  pub data Parsed : Type 0 where
    object : Option String → Option Args → Parsed
    not_object invalid : Parsed

pub record EvalVerdict : Type 0 where
  pub accepted : Bool
  pub accuracy : Fraction
  pub baseline : Fraction
  pub adapter : String
  pub failures : List String

-- `accuracy >= baseline - tolerance`
abbrev pub clears : Fraction → Fraction → Fraction → Bool
clears accuracy tolerance baseline =
    leb (baseline.parts * (accuracy.whole * tolerance.whole))
      ((accuracy.parts * tolerance.whole + tolerance.parts * accuracy.whole) * baseline.whole)

-- `{"model": model} if model else {}`
abbrev pub or_base : String → Option String
or_base name = if str_eq name "" then none else some name

module _ {Args : Type 0} (args_eq : Args → Args → Bool) where
  abbrev pub args_match : Option Args → Option Args → Bool
  args_match none args = true
  args_match (some e) none = false
  args_match (some e) (some a) = args_eq a e

  abbrev pub is_tool : Option String → String → Bool
  is_tool none expected = false
  is_tool (some name) expected = str_eq name expected

  -- `GoldenCase.matches`
  unfoldable pub matches : GoldenCase Args → Option String → Option Args → Bool
  matches c tool_name args =
      if is_tool tool_name c.expected_tool then args_match c.expected_args args else false

  module _ (is_space : Char → Bool) (loads : String → Parsed Args) where
    abbrev pub call_in : Parsed Args → Option String × Option Args
    call_in (object tool_name args) = (tool_name, args)
    call_in _ = (none, none)

    -- `_parse_tool_call`
    unfoldable pub parse_tool_call : String → Option String × Option Args
    unfolding left_stripped right_stripped prefix rest_after
    parse_tool_call text = call_in (loads (unfenced is_space (stripped is_space text)))

    abbrev pub passes : GoldenCase Args → String → Bool
    passes c text = let (tool_name, args) = parse_tool_call text in matches c tool_name args

    module _ {W X : Type 0} (chat_text : Option String → String → W → Result X String × W) where
      abbrev pub noted :
          GoldenCase Args
          → Result X String × W
          → (W → Result X (List String) × W)
          → Result X (List String) × W
      noted c (err x, w) rest = (err x, w)
      noted c (ok text, w) rest =
          let (r, w') = rest w in
          (r >>= λ failures. ok (if passes c text then failures else c.prompt ∷ failures), w')

      -- The loop of `score`.
      unfoldable pub failing :
          Option String → List (GoldenCase Args) → W → Result X (List String) × W
      unfolding parse_tool_call matches
      failing model [] w = (ok [], w)
      failing model (c ∷ cs) w = noted c (chat_text model c.prompt w) (failing model cs)

      -- `1.0 - len(failures) / len(self.dataset.cases)`
      abbrev pub accuracy_of : List (GoldenCase Args) → List String → Fraction
      accuracy_of [] failures = record { parts = 1; whole = 1 }
      accuracy_of (c ∷ cs) failures = record {
        parts = suc (length cs) - length failures;
        whole = suc (length cs);
      }

      -- `score`; without cases no reply is asked for.
      unfoldable pub score :
          List (GoldenCase Args) → Option String → W → Result X (Fraction × List String) × W
      unfolding failing
      score cases model w =
          let (r, w') = failing model cases w in
          (r >>= λ failures. ok (accuracy_of cases failures, failures), w')

      -- The verdict on the adapter `name`, given what its score comes to.
      abbrev pub judged :
          Fraction
          → String
          → Fraction
          → Result X (Fraction × List String) × W
          → Result X EvalVerdict × Option Fraction × W
      judged tolerance name baseline (err x, w) = (err x, some baseline, w)
      judged tolerance name baseline (ok (accuracy, failures), w) = (
        ok (record {
          accepted = clears accuracy tolerance baseline;
          accuracy = accuracy;
          baseline = baseline;
          adapter = name;
          failures = failures;
        }),
        some baseline,
        w,
      )

      -- `establish_baseline`, and then the score of the adapter.
      abbrev pub with_baseline :
          List (GoldenCase Args)
          → Fraction
          → String
          → Result X (Fraction × List String) × W
          → Result X EvalVerdict × Option Fraction × W
      with_baseline cases tolerance name (err x, w) = (err x, none, w)
      with_baseline cases tolerance name (ok (accuracy, failures), w) =
          judged tolerance name accuracy (score cases (or_base name) w)

      -- `evaluate`, with the gate's baseline before and after it.
      unfoldable pub evaluate :
          List (GoldenCase Args)
          → (tolerance : Fraction) → Option Fraction
          → String
          → W
          → Result X EvalVerdict × Option Fraction × W
      evaluate cases tolerance none name w = with_baseline cases tolerance name (score cases none w)
      evaluate cases tolerance (some baseline) name w =
          judged tolerance name baseline (score cases (or_base name) w)
