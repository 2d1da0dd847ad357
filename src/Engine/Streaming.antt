-- ===== src/Engine/Streaming.antt =====
-- The streaming client of omniai/engine/engine.py (ModelEngine.stream_chat), on the lines of an
-- answer. `delta` reads the content of a chunk's first choice, or raises an exception of type `E`.
mod Tests
use na_ai.Base.{
  String, ◌≡◌, refl, true, false, Bool, Option, none, some, List, [], ◌∷◌, ◌++◌, str_eq,
  if◌then◌else◌,
}
use na_ai.Base.Result.{Result, ok, err}
use na_ai.Base.Texts.{prefix, rest_after}
use na_ai.Models.Structured.{left_stripped, right_stripped, stripped, starts_with, without_prefix}
use Prim.Native.Char.{Char}

module _ {E : Type 0} (is_space : Char → Bool) (delta : String → Result E (Option String)) where
  -- The chunk of a line of data, `line.removeprefix("data:").strip()`; none for another line.
  unfoldable pub data_of : String → Option String
  unfolding left_stripped right_stripped prefix rest_after
  data_of line =
      if starts_with "data:" line
      then some (stripped is_space (without_prefix "data:" line))
      else none

  -- `if content := delta.get("content")`
  abbrev pub onto : Option String → List String → List String
  onto none rest = rest
  onto (some s) rest = if str_eq s "" then rest else s ∷ rest

  -- What was yielded, and the exception that ended it, if one did.
  abbrev pub yielded : Result E (Option String) → List String × Option E → List String × Option E
  yielded (ok c) (rest, end) = (onto c rest, end)
  yielded (err x) later = ([], some x)

  -- One line: a line of no data is skipped, and the last chunk ends the stream.
  abbrev pub read_line : Option String → List String × Option E → List String × Option E
  read_line none later = later
  read_line (some chunk) later =
      if str_eq chunk "[DONE]" then ([], none) else yielded (delta chunk) later

  -- The loop over the lines; an exception ends it, as the end of the answer does.
  unfoldable pub streamed : List String → List String × Option E
  unfolding data_of
  streamed [] = ([], none)
  streamed (line ∷ lines) = let later = streamed lines in read_line (data_of line) later

  -- A line that a server may send before the end: one of no data, or one whose chunk has a content.
  pub data IsSent : String → List String → Type 0 where
    no_data : {line : String} → data_of line ≡ none → IsSent line []
    content :
        {line chunk s : String}
        → data_of line ≡ some chunk
        → str_eq chunk "[DONE]" ≡ false
        → delta chunk ≡ ok (some s)
        → str_eq s "" ≡ false
        → IsSent line (s ∷ [])

  -- Lines that are sent, with the contents that they carry.
  pub data AreSent : List String → List String → Type 0 where
    finished : AreSent [] []
    sent :
        {line : String} {lines here rest : List String}
        → IsSent line here
        → AreSent lines rest
        → AreSent (line ∷ lines) (here ++ rest)

  one_line :
      (line : String) (lines here rest : List String)
      → IsSent line here
      → streamed lines ≡ (rest, none)
      → streamed (line ∷ lines) ≡ (here ++ rest, none)
  unfolding streamed
  one_line line lines here rest (no_data h) e = rw h e
  one_line line lines here rest (content h done d full) e = rw (h, done, d, e, full) refl

  end_here :
      (done : String) (behind : List String)
      → data_of done ≡ some "[DONE]"
      → streamed (done ∷ behind) ≡ ([], none)
  unfolding streamed
  end_here done behind h = rw h refl

  -- A stream whose lines are of no data, or carry a chunk with a content, yields these contents,
  -- all of them and in their order, up to the line that ends it; what comes behind that line is
  -- ignored.
  pub streamed_contents :
      (lines : List String) (done : String) (behind contents : List String)
      → AreSent lines contents
      → data_of done ≡ some "[DONE]"
      → streamed (lines ++ (done ∷ behind)) ≡ (contents, none)
  streamed_contents lines done behind contents finished h = end_here done behind h
  streamed_contents lines done behind contents
        (sent {line = l} {lines = ls} {here = hs} {rest = rs} one more) h =
      one_line l (ls ++ (done ∷ behind)) hs rs one (streamed_contents ls done behind rs more h)
