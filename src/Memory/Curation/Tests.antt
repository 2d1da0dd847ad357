-- ===== src/Memory/Curation/Tests.antt =====
-- The screening of a session whose answers have feedback, at a judge that gives every pair a score
-- of 5.
use na_ai.Base.{ℕ, ◌+◌, String, none, List, [], ◌∷◌}
use na_ai.Base.Result.{Result, ok}
use na_ai.Protocol.{Role, internal, user, assistant, Value, text}
use na_ai.Memory.Buffer.{Interaction}
use na_ai.Memory.Pairs.{format_training_pairs}
use na_ai.Memory.Curation.{curate, IsScreened, curate-IsScreened}

abbrev judge : String → String → ℕ → Result String ℕ × ℕ
judge prompt completion w = (ok 5, w + 1)

abbrev row : Role → String → String → Interaction
row role content feedback = record {
  id = content;
  session_id = "s";
  channel = internal;
  role = role;
  content = content;
  tool_calls = [];
  metadata = ("feedback", text feedback) ∷ [];
  created_at = 0;
}

abbrev show : Value → String
show (text s) = s
show _ = ""

abbrev logs : List Interaction
logs =
    row user "q1" ""
    ∷ row assistant "a1" "bad"
    ∷ row user "q2" ""
    ∷ row assistant "a2" "good"
    ∷ row user "q3" ""
    ∷ row assistant "a3" ""
    ∷ []

curate-IsScreened_example :
    IsScreened
      (λ s. s)
      judge
      7
      (format_training_pairs show logs none)
      (curate (λ s. s) judge 7 show logs 0)
curate-IsScreened_example = curate-IsScreened (λ s. s) judge 7 show logs 0
