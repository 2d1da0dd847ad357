-- ===== src/Retrieval/Chunks.antt =====
-- chunk_text of omniai/rag/store.py. Which characters `str.strip` takes away is the parameter
-- `is_space`.
pub mod Bounds
use na_ai.Base.{
  ℕ, zero, suc, ◌+◌, ◌-◌, String, Bool, true, false, ◌&&◌, not, List, [], ◌∷◌, ◌++◌, str_eq, ltb,
  leb, ◌==◌, if◌then◌else◌,
}
use na_ai.Base.Result.{Result, ok, err}
use na_ai.Base.Texts.{onto_first, characters, prefix, rest_after}
use Prim.Native.Char.{Char, code}
use Prim.Native.String.{◌++◌ as str_append}

-- `text.split("\n\n")`
unfoldable pub split_pairs : String → List String
split_pairs String.[] = "" ∷ []
split_pairs (String.◌∷◌ c String.[]) = String.◌∷◌ c "" ∷ []
split_pairs (String.◌∷◌ c (String.◌∷◌ d s)) =
    let behind = split_pairs s in
    let later = split_pairs (String.◌∷◌ d s) in
    if (code c == b'\n') && (code d == b'\n') then "" ∷ behind else onto_first c later

-- `len(current) > chunk_size`: the windows that the inner loop cuts off, on fuel, and the rest.
unfoldable pub windows : (chunk_size step fuel : ℕ) → String → List String × String
unfolding rest_after
windows chunk_size step zero s = ([], s)
windows chunk_size step (suc fuel) s =
    let later = windows chunk_size step fuel (rest_after step s) in
    if ltb chunk_size (characters s) then (prefix chunk_size s ∷ later.0, later.1) else ([], s)

-- `current[-overlap:] if overlap else ""`
abbrev pub overlapping : ℕ → String → String
overlapping overlap s = if overlap == 0 then "" else rest_after (characters s - overlap) s

abbrev pub is_full : ℕ → String → String → Bool
is_full chunk_size current para =
    not (str_eq current "") && ltb chunk_size (characters current + characters para + 2)

-- `if current: chunks.append(current)`
abbrev pub with_last : List String × String → List String
with_last (chunks, current) = if str_eq current "" then chunks else chunks ++ (current ∷ [])

pub data ValueError : Type 0 where
  chunk_size_too_small : ValueError

module _ (is_space : Char → Bool) where
  unfoldable pub left_stripped : String → String
  left_stripped String.[] = ""
  left_stripped (String.◌∷◌ c s) =
      let rest = left_stripped s in if is_space c then rest else String.◌∷◌ c s

  unfoldable pub right_stripped : String → String
  right_stripped String.[] = ""
  right_stripped (String.◌∷◌ c s) =
      let rest = right_stripped s in if str_eq rest "" && is_space c then "" else String.◌∷◌ c rest

  abbrev pub stripped : String → String
  stripped s = right_stripped (left_stripped s)

  -- `[p.strip() for p in parts if p.strip()]`
  unfoldable pub paragraphs_of : List String → List String
  unfolding left_stripped right_stripped
  paragraphs_of [] = []
  paragraphs_of (p ∷ ps) =
      let rest = paragraphs_of ps in if str_eq (stripped p) "" then rest else stripped p ∷ rest

  abbrev pub joined_to : String → String → String
  joined_to current para =
      if str_eq current "" then para else stripped (str_append current (str_append "\n\n" para))

  -- One round of the outer loop.
  abbrev pub add_paragraph :
      (chunk_size overlap : ℕ) → List String × String → String → List String × String
  add_paragraph chunk_size overlap (chunks, current) para =
      let kept = if is_full chunk_size current para then chunks ++ (current ∷ []) else chunks in
      let tail = if is_full chunk_size current para then overlapping overlap current else current in
      let text = joined_to tail para in
      let (cut, rest) = windows chunk_size (chunk_size - overlap) (characters text) text in
      (kept ++ cut, rest)

  abbrev pub add_paragraphs :
      (chunk_size overlap : ℕ) → List String × String → List String → List String × String
  add_paragraphs chunk_size overlap state [] = state
  add_paragraphs chunk_size overlap state (p ∷ ps) =
      add_paragraphs chunk_size overlap (add_paragraph chunk_size overlap state p) ps

  unfoldable pub chunk_text : String → (chunk_size overlap : ℕ) → Result ValueError (List String)
  unfolding paragraphs_of split_pairs windows
  chunk_text text chunk_size overlap =
      if leb chunk_size overlap
      then err chunk_size_too_small
      else ok (
          with_last (add_paragraphs chunk_size overlap ([], "") (paragraphs_of (split_pairs text))))
