-- ===== src/Memory/Pairs/Users/Tests.antt =====
-- The training pairs of two sessions whose messages are mixed.
use na_ai.Base.{String, ◌≤◌, ◌≡◌, refl, none, List, [], ◌∷◌, length}
use na_ai.Protocol.{Role, internal, user, assistant, tool}
use na_ai.Memory.Buffer.{Interaction}
use na_ai.Memory.Pairs.{grouped, all_pairs, session_pairs, format_training_pairs}
use na_ai.Memory.Pairs.Users.{users, format_training_pairs-le}

abbrev row : String → Role → String → Interaction
row session role content = record {
  id = content;
  session_id = session;
  channel = internal;
  role = role;
  content = content;
  tool_calls = [];
  metadata = [];
  created_at = 0;
}

abbrev logs : List Interaction
logs =
    row "s" user "q1"
    ∷ row "t" user "q2"
    ∷ row "s" tool "out"
    ∷ row "s" assistant "a1"
    ∷ row "s" assistant "a1 again"
    ∷ row "t" assistant "a2"
    ∷ []

pairs_of_logs : length (format_training_pairs (λ v. "value") logs none) ≤ users logs
pairs_of_logs = format_training_pairs-le (λ v. "value") logs none

logs_pairs :
    format_training_pairs (λ v. "value") logs none
    ≡ record { prompt = "q1\n[tool output] out"; completion = "a1"; system = none; feedback = none }
      ∷ record { prompt = "q2"; completion = "a2"; system = none; feedback = none }
      ∷ []
unfolding format_training_pairs grouped all_pairs session_pairs
logs_pairs = refl
