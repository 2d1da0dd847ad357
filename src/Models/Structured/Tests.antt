-- ===== src/Models/Structured/Tests.antt =====
-- Structured output, at a model that repeats its replies and a schema of one object.
use na_ai.Base.{ℕ, ◌+◌, String, ◌≡◌, refl, Bool, ◌||◌, ◌==◌, List, [], str_eq, if◌then◌else◌}
use na_ai.Base.Result.{Result, ok, err}
use na_ai.Models.Structured.{Message, extract_json, invoke}
use na_ai.Models.Structured.Attempts.{logged, Ended, invoke-Ended}
use Prim.Native.Char.{Char, code}

abbrev is_blank : Char → Bool
is_blank c = (code c == 32) || (code c == b'\n')

-- The model answers with prose first, and with an object when it is asked again.
abbrev generate : List Message → ℕ → Result String String × ℕ
generate conversation w = (if w == 0 then ok "sorry" else ok "Here: {\"a\": 1} .", w + 1)

abbrev validate : String → Result String ℕ
validate s = if str_eq s "{\"a\": 1}" then ok 1 else err "no object"

abbrev instruction : Message
instruction = record { role = "system"; content = "JSON only" }

in_prose : extract_json is_blank "Here: {\"a\": {}} ." ≡ "{\"a\": {}}"
unfolding extract_json
in_prose = refl

in_fences : extract_json is_blank " ```json\n[1]\n``` " ≡ "[1]"
unfolding extract_json
in_fences = refl

second_try : (invoke is_blank generate validate 2 instruction [] 0) ≡ (ok 1, 2)
unfolding invoke extract_json
second_try = refl

invoke-Ended_example :
    Ended is_blank generate validate
      (invoke is_blank (logged is_blank generate validate) validate 2 instruction [] (0, [])).0
      0
      3
      (invoke is_blank (logged is_blank generate validate) validate 2 instruction [] (0, [])).1.1
invoke-Ended_example = invoke-Ended is_blank generate validate 2 instruction [] 0
