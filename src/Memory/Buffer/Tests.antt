-- ===== src/Memory/Buffer/Tests.antt =====
-- The threshold of the log, at concrete messages.
use na_ai.Base.{String, ◌+◌, ◌*◌, ◌≤◌, ◌<◌, ◌≡◌, refl, true, none, some, List, [], ◌∷◌, arith}
use na_ai.Protocol.{OmniMessage, internal, user}
use na_ai.Memory.Buffer.{new, log, check_threshold, upsert}
use na_ai.Memory.Buffer.Threshold.{calls, calls_lem}

abbrev message : String → OmniMessage
message id = record {
  id = id;
  session_id = "s";
  channel = internal;
  role = user;
  content = "hello";
  tool_calls = [];
  metadata = [];
  created_at = 1;
}

abbrev five : List OmniMessage
five = message "a" ∷ message "b" ∷ message "a" ∷ message "c" ∷ message "d" ∷ []

five_logged :
    (calls five (new [] none (some 2) true) * 2 ≤ 5)
    × (5 < (calls five (new [] none (some 2) true) + 1) * 2)
five_logged = calls_lem [] none 2 five (omega arith)

two_calls : calls five (new [] none (some 2) true) ≡ 2
unfolding calls log check_threshold upsert
two_calls = refl
