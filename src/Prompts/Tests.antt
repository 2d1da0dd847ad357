-- ===== src/Prompts/Tests.antt =====
-- Prompt templates, at a formatter whose templates are single variables.
use na_ai.Base.{arith, String, ◌≡◌, refl, true, false, Option, none, some, List, [], ◌∷◌}
use na_ai.Base.Dict.{Dict, lookup, updated}
use na_ai.Base.Result.{ok, err, IsOk}
use na_ai.Protocol.{user}
use na_ai.Models.Wire.{plain}
use na_ai.Prompts.{
  Arg, text, items, not_iterable, wire, turn, message, missing_variables, raw, ChatPromptTemplate,
  finished, role_item, placeholder, partial, input_variables, format_messages,
}
use na_ai.Prompts.Variables.{format_messages-given, partial_breaks, format_messages-partial}

abbrev fields : String → List String
fields s = s ∷ []

abbrev shown : Option Arg → Option String
shown (some (text s)) = some s
shown (some (items xs)) = some "[...]"
shown (some not_iterable) = some "?"
shown none = none

abbrev fill : String → Dict Arg → Option String
fill s values = shown (lookup s values)

fill_given :
    (a : Option Arg)
    → elim a [ none ↦ false | some v ↦ true ] ≡ true
    → (t : String) × (shown a ≡ some t)
fill_given (some (text s)) h = (s, refl)
fill_given (some (items xs)) h = ("[...]", refl)
fill_given (some not_iterable) h = ("?", refl)
fill_given none h = absurd (cc)

abbrev chat : ChatPromptTemplate
chat = role_item "system" (raw "tone") (placeholder "history" true finished)

abbrev values : Dict Arg
values = ("tone", text "be brief") ∷ ("history", items (wire (plain user "hi") ∷ [])) ∷ []

two_messages :
    format_messages fields fill chat values
    ≡ ok (turn "system" "be brief" ∷ message (plain user "hi") ∷ [])
unfolding format_messages
two_messages = refl

no_tone : format_messages fields fill chat [] ≡ err missing_variables
unfolding format_messages
no_tone = refl

chat_variables : input_variables fields fill chat ≡ ok ("tone" ∷ "history" ∷ [])
unfolding input_variables
chat_variables = refl

format_messages-given_example : IsOk (format_messages fields fill chat values)
format_messages-given_example =
    format_messages-given fields fill chat values ("tone" ∷ "history" ∷ [])
      ((λ given h. fill_given (lookup "tone" given) (ground arith)), tt) (tt, tt) chat_variables
      refl

partial_breaks_example :
    (¬ IsOk (input_variables fields fill (partial values chat)))
    × (¬ IsOk (format_messages fields fill (partial [] (partial values chat)) values))
partial_breaks_example = partial_breaks fields fill chat values [] values refl

abbrev roles : ChatPromptTemplate
roles = role_item "system" (raw "tone") (role_item "user" (raw "question") finished)

format_messages-partial_example :
    format_messages fields fill (partial values roles) (("question", text "why") ∷ [])
    ≡ format_messages fields fill roles (updated values (("question", text "why") ∷ []))
format_messages-partial_example =
    format_messages-partial fields fill roles values (("question", text "why") ∷ []) tt
