-- ===== src/Models/Anthropic/Tests.antt =====
-- The conversion of a history with two tool outputs in a row.
use na_ai.Base.{String, ◌≡◌, refl, none, List, [], ◌∷◌}
use na_ai.Base.Result.{Result, ok}
use na_ai.Protocol.{system, user, assistant, text}
use na_ai.Models.Wire.{WireMessage, tool_output, tool_request, plain}
use na_ai.Models.Anthropic.{
  Turn, Part, words, blocks, tool_result, tool_use, use_blocks, part_of, parts_of, turns_of,
  add_turn, merged, to_anthropic,
}
use na_ai.Models.Anthropic.Turns.{Alternates, IsSpoken, tagged, to_anthropic-Alternates}

abbrev read : String → Result String String
read s = ok s

abbrev history : List WireMessage
history =
    plain system "be brief"
    ∷ plain user "go"
    ∷ tool_request none (
        record { id = "c1"; name = "f"; arguments = "" }
        ∷ record { id = "c2"; name = "g"; arguments = "[]" }
        ∷ [])
    ∷ tool_output (text "c1") "one"
    ∷ tool_output (text "c2") "two"
    ∷ []

abbrev turns : List Turn
turns =
    record { role = user; content = words "go" }
    ∷ record {
      role = assistant;
      content = blocks (tool_use "c1" "f" "{}" ∷ tool_use "c2" "g" "[]" ∷ []);
    }
    ∷ record {
      role = user;
      content = blocks (tool_result (text "c1") "one" ∷ tool_result (text "c2") "two" ∷ []);
    }
    ∷ []

history_turns : to_anthropic read history ≡ ok ("be brief", turns)
unfolding to_anthropic use_blocks part_of parts_of add_turn merged
history_turns = refl

to_anthropic-Alternates_example :
    Alternates turns
    × IsSpoken turns
    × ((ps : List Part) × (parts_of read history ≡ ok ps) × (tagged turns ≡ tagged (turns_of ps)))
to_anthropic-Alternates_example =
    to_anthropic-Alternates read history "be brief" turns history_turns
