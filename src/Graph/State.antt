-- ===== src/Graph/State.antt =====
-- The state of omniai/graph/state.py: the messages, and the other fields by name. A node's update is
-- `None`, or the fields that it sets; a `State` returned by a node is the fields that were set on it.
use na_ai.Base.{◌≡◌, refl, sym, Option, none, some, List, [], ◌∷◌, ◌++◌}
use na_ai.Base.Dict.{Dict, insert}
use na_ai.Protocol.{OmniMessage}
use mathlib.Core.List.{append-nil}

module _ (V : Type 0) where
  pub record State : Type 0 where
    pub messages : List OmniMessage
    pub fields : Dict V

  pub data Update : Type 0 where
    nothing : Update
    partial : Option (List OmniMessage) → Dict V → Update

-- `if appended:` fails for `None` and for an empty list.
abbrev pub appended : Option (List OmniMessage) → List OmniMessage → List OmniMessage
appended none old = old
appended (some new) old = old ++ new

module _ {V : Type 0} where
  -- `model_copy(update=updates)` on the fields other than the messages.
  abbrev pub assign : Dict V → Dict V → Dict V
  assign [] d = d
  assign ((k, v) ∷ us) d = assign us (insert k v d)

  unfoldable pub merge : Update V → State V → State V
  merge nothing s = s
  merge (partial ms us) s = record {
    messages = appended ms s.messages;
    fields = assign us s.fields;
  }

  -- Merging keeps every earlier message in its place.
  pub merge-messages :
      (u : Update V) (s : State V)
      → (ms : List OmniMessage) × ((merge u s).messages ≡ s.messages ++ ms)
  unfolding merge
  merge-messages nothing s = ([], sym (append-nil s.messages))
  merge-messages (partial none us) s = ([], sym (append-nil s.messages))
  merge-messages (partial (some ms) us) s = (ms, refl)
