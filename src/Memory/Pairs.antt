-- ===== src/Memory/Pairs.antt =====
-- The training pairs of omniai/memory/learning.py (format_training_pairs). Python's `str` on a
-- value of the metadata is the parameter `show`.
pub mod Users
use na_ai.Base.{String, Option, none, some, List, [], ◌∷◌, ◌++◌, if◌then◌else◌, truthy}
use na_ai.Base.Dict.{Dict, lookup, insert, values}
use na_ai.Protocol.{Role, user, assistant, tool, Value, null}
use na_ai.Memory.Buffer.{Interaction}
use Prim.Native.String.{◌++◌ as str_append}

pub record Pair : Type 0 where
  pub prompt : String
  pub completion : String
  pub system : Option String
  pub feedback : Option String

-- What the loop over a session's rows has reached.
pub record Progress : Type 0 where
  pub prompt : Option String
  pub context : List String
  pub pairs : List Pair

abbrev pub found : Option (List Interaction) → List Interaction
found none = []
found (some rs) = rs

-- `by_session.setdefault(row["session_id"], []).append(row)`
pub grouped : List Interaction → Dict (List Interaction) → Dict (List Interaction)
grouped [] d = d
grouped (r ∷ rs) d = grouped rs (insert r.session_id (found (lookup r.session_id d) ++ (r ∷ [])) d)

-- "\n" before each line
abbrev pub lines : List String → String
lines [] = ""
lines (l ∷ ls) = str_append (str_append "\n" l) (lines ls)

abbrev pub feedback_of : (Value → String) → Option Value → Option String
feedback_of show none = none
feedback_of show (some null) = none
feedback_of show (some v) = some (show v)

-- `_row_feedback`
abbrev pub row_feedback : (Value → String) → Interaction → Option String
row_feedback show r = feedback_of show (lookup "feedback" r.metadata)

-- `if system_prompt:`
abbrev pub system_of : Option String → Option String
system_of s = if truthy s then s else none

abbrev pub pair_of : (Value → String) → Option String → String → Interaction → Progress → Pair
pair_of show system prompt r p = record {
  prompt = str_append prompt (lines p.context);
  completion = r.content;
  system = system_of system;
  feedback = row_feedback show r;
}

abbrev pub step_as :
    (Value → String) → Option String → Role → Option String → Interaction → Progress → Progress
step_as show system user q r p = record p { prompt = some r.content; context = [] }
step_as show system tool (some q) r p = record p {
  context = p.context ++ (str_append "[tool output] " r.content ∷ []);
}
step_as show system assistant (some q) r p = record p {
  pairs = p.pairs ++ (pair_of show system q r p ∷ []);
  prompt = none;
  context = [];
}
step_as show system _ _ r p = p

pub session_pairs : (Value → String) → Option String → List Interaction → Progress → Progress
session_pairs show system [] p = p
session_pairs show system (r ∷ rs) p =
    session_pairs show system rs (step_as show system r.role p.prompt r p)

pub all_pairs : (Value → String) → Option String → List (List Interaction) → List Pair → List Pair
unfolding session_pairs
all_pairs show system [] done = done
all_pairs show system (rs ∷ rest) done =
    all_pairs show system rest
      (session_pairs show system rs (record { prompt = none; context = []; pairs = done })).pairs

unfoldable pub format_training_pairs :
    (Value → String) → List Interaction → Option String → List Pair
unfolding grouped all_pairs
format_training_pairs show logs system = all_pairs show system (values (grouped logs [])) []
