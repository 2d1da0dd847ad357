-- ===== src/Engine/Streaming/Tests.antt =====
-- A stream of two chunks, with a blank line and a line behind the end.
use na_ai.Base.{
  String, Bool, ◌≡◌, refl, Option, none, some, List, [], ◌∷◌, ◌++◌, ◌==◌, str_eq, if◌then◌else◌,
}
use na_ai.Base.Result.{Result, ok, err}
use na_ai.Engine.Streaming.{
  data_of, streamed, no_data, content, AreSent, finished, sent, streamed_contents,
}
use Prim.Native.Char.{Char, code}

abbrev is_blank : Char → Bool
is_blank c = code c == 32

-- A chunk is its own content.
abbrev delta : String → Result String (Option String)
delta s = if str_eq s "{" then err "unterminated" else ok (some s)

abbrev lines : List String
lines = "data: Hel" ∷ "" ∷ "data:lo" ∷ []

lines_sent : AreSent is_blank delta lines ("Hel" ∷ "lo" ∷ [])
unfolding data_of
lines_sent =
    sent (content refl refl refl refl)
      (sent (no_data refl) (sent (content refl refl refl refl) finished))

streamed_contents_example :
    streamed is_blank delta (lines ++ ("data: [DONE]" ∷ "data: more" ∷ []))
    ≡ ("Hel" ∷ "lo" ∷ [], none)
unfolding data_of
streamed_contents_example =
    streamed_contents is_blank delta lines "data: [DONE]" ("data: more" ∷ []) ("Hel" ∷ "lo" ∷ [])
      lines_sent refl

broken :
    streamed is_blank delta ("data: a" ∷ "data: {" ∷ "data: b" ∷ [])
    ≡ ("a" ∷ [], some "unterminated")
unfolding streamed
broken = refl
