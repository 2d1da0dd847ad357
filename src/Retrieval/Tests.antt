-- ===== src/Retrieval/Tests.antt =====
-- Retrieval, at concrete texts and documents.
use na_ai.Base.{
  ℕ, ◌+◌, min, String, ◌≡◌, refl, Bool, none, List, [], ◌∷◌, ◌++◌, ◌==◌, ◌||◌, length, arith, All,
}
use na_ai.Base.Texts.{characters, prefix}
use na_ai.Base.Result.{ok, err}
use na_ai.Retrieval.Chunks.{
  windows, chunk_text, chunk_size_too_small, split_pairs, paragraphs_of, left_stripped,
  right_stripped,
}
use na_ai.Retrieval.Chunks.Bounds.{IsChunk, chunk_text-IsChunk, stitched, stitched-windows}
use na_ai.Retrieval.Store.{Document, ScoredDocument, Docs, delete, indexed, search, scored, ranked}
use na_ai.Retrieval.Store.Contents.{
  Call, add_call, delete_call, Library, performed, specified, Represents, performed-Represents,
}
use na_ai.Retrieval.Store.Ranking.{IsDescending, search-IsDescending}
use mathlib.Core.List.{Perm}
use Prim.Native.Char.{Char, code}

abbrev is_blank : Char → Bool
is_blank c = (code c == 32) || (code c == b'\n')

two_chunks : chunk_text is_blank "abcde\n\n  fgh \n\n" 6 2 ≡ ok ("abcde" ∷ "de\n\nfg" ∷ "fgh" ∷ [])
unfolding chunk_text windows paragraphs_of split_pairs left_stripped right_stripped prefix
two_chunks = refl

too_small : chunk_text is_blank "abc" 2 2 ≡ err chunk_size_too_small
unfolding chunk_text
too_small = refl

chunk_text-IsChunk_example :
    (chunks : List String) × (chunk_text is_blank "abcde\n\n  fgh \n\n" 6 2 ≡ ok chunks)
    × All (IsChunk 6) chunks
chunk_text-IsChunk_example = chunk_text-IsChunk is_blank 6 2 (omega arith) "abcde\n\n  fgh \n\n"

seven_letters : stitched 2 (windows 3 2 9 "abcdefg") ≡ "abcdefg"
seven_letters = stitched-windows 3 2 9 "abcdefg" (omega arith)

abbrev document_at : String → String → Document
document_at id text = record { text = text; metadata = []; id = id }

abbrev calls : List Call
calls =
    add_call (document_at "a" "one" ∷ document_at "b" "three" ∷ [])
    ∷ delete_call ("b" ∷ [])
    ∷ add_call (document_at "a" "seven" ∷ [])
    ∷ []

abbrev empty : Library
empty k = none

performed-Represents_example :
    Represents characters (performed characters calls []) (specified calls empty)
performed-Represents_example = performed-Represents characters calls [] empty (λ k. refl)

after_calls : performed characters calls [] ≡ (("a", (document_at "a" "seven", 5)) ∷ [])
unfolding indexed delete
after_calls = refl

abbrev library : Docs ℕ
library = ("a", (document_at "a" "one", 3)) ∷ ("b", (document_at "b" "three", 5)) ∷ []

abbrev larger : ℕ → ℕ → ℕ
larger query vec = query + vec

best :
    search characters larger "?" 1 library
    ≡ (record { document = document_at "b" "three"; score = 6 } ∷ [])
unfolding search ranked
best = refl

search-IsDescending_example :
    (rest : List ScoredDocument) × Perm
      (search characters larger "?" 1 library ++ rest)
      (scored characters larger "?" library)
    × IsDescending (search characters larger "?" 1 library ++ rest)
    × (length (search characters larger "?" 1 library) ≡ min 1 (length library))
search-IsDescending_example = search-IsDescending characters larger "?" 1 library
