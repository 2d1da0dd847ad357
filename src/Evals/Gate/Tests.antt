-- ===== src/Evals/Gate/Tests.antt =====
-- The gate, on a suite of two cases; the base model fails one of them and the adapter none.
use na_ai.Base.{ℕ, String, Bool, Option, none, some, str_eq, ◌==◌, if◌then◌else◌}
use na_ai.Base.Result.{Result, ok}
use na_ai.Evals.Gate.{GoldenCase, Parsed, object, invalid}
use Prim.Native.Char.{Char, code}

abbrev is_blank : Char → Bool
is_blank c = code c == 32

abbrev loads : String → Parsed String
loads s = if str_eq s "{lookup}" then object (some "lookup") (some "x") else invalid

abbrev first : GoldenCase String
first = record { prompt = "find x"; expected_tool = "lookup"; expected_args = some "x" }

abbrev second : GoldenCase String
second = record { prompt = "find any"; expected_tool = "lookup"; expected_args = none }

abbrev chat_text : Option String → String → ℕ → Result String String × ℕ
chat_text none prompt w =
    (if str_eq prompt "find x" then ok "no idea" else ok "```json{lookup}```", w)
chat_text (some name) prompt w = (ok " {lookup} ", w)
