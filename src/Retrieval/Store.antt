-- ===== src/Retrieval/Store.antt =====
-- The store and the retriever of omniai/rag/store.py. The embedder and the similarity of two vectors
-- are parameters; a score is a natural number, of which only the order counts.
pub mod Contents
pub mod Ranking
use na_ai.Base.{
  ℕ, suc, ◌+◌, String, Bool, true, false, Option, none, some, List, [], ◌∷◌, ◌++◌, map, length,
  take, filter, leb, if◌then◌else◌,
}
use na_ai.Base.Dict.{Dict, insert, remove, values}
use na_ai.Base.Result.{Result, ok, err}
use na_ai.Protocol.{Value}
use na_ai.Retrieval.Chunks.{ValueError, chunk_text}
use Prim.Native.Char.{Char}
use Prim.Native.String.{◌++◌ as str_append}

pub record Document : Type 0 where
  pub text : String
  pub metadata : Dict Value
  pub id : String

pub record ScoredDocument : Type 0 where
  pub document : Document
  pub score : ℕ

-- `_docs`: by its identifier, each document with its vector.
abbrev pub Docs : Type 0 → Type 0
Docs V = Dict (Document × V)

-- `[d.id for d in documents]`
abbrev pub ids_of : List Document → List String
ids_of documents = map (λ d. d.id) documents

-- `delete`
unfoldable pub delete : {V : Type 0} → List String → Docs V → Docs V
delete [] docs = docs
delete (id ∷ ids) docs = delete ids (remove id docs)

-- `scored.sort(key=..., reverse=True)`, which keeps equal scores in their order: one document is put
-- in front of the first whose score is not higher. The documents are taken from the last one on.
unfoldable pub ranked_in : ScoredDocument → List ScoredDocument → List ScoredDocument
ranked_in x [] = x ∷ []
ranked_in x (y ∷ ys) =
    let rest = ranked_in x ys in if leb y.score x.score then x ∷ (y ∷ ys) else y ∷ rest

unfoldable pub ranked : List ScoredDocument → List ScoredDocument
unfolding ranked_in
ranked [] = []
ranked (x ∷ xs) = ranked_in x (ranked xs)

module _ {V : Type 0} (embedder : String → V) where
  -- The loop of `add`.
  unfoldable pub indexed : List Document → Docs V → Docs V
  indexed [] docs = docs
  indexed (d ∷ ds) docs = indexed ds (insert d.id (d, embedder d.text) docs)

  abbrev pub add : List Document → Docs V → List String × Docs V
  add documents docs = (ids_of documents, indexed documents docs)

  -- `add_texts`; `new_id` gives the identifier that the document at a place draws.
  abbrev pub documents_of : (ℕ → String) → Dict Value → ℕ → List String → List Document
  documents_of new_id metadata i [] = []
  documents_of new_id metadata i (t ∷ ts) =
      record { text = t; metadata = metadata; id = new_id i }
      ∷ documents_of new_id metadata (suc i) ts

  abbrev pub add_chunks :
      (ℕ → String)
      → Dict Value
      → Docs V
      → Result ValueError (List String)
      → Result ValueError (List String × Docs V)
  add_chunks new_id metadata docs (ok chunks) =
      ok (add (documents_of new_id metadata 0 chunks) docs)
  add_chunks new_id metadata docs (err x) = err x

  -- `add_document_text`
  pub add_document_text :
      (Char → Bool)
      → String
      → Dict Value
      → (chunk_size overlap : ℕ) → (ℕ → String)
      → Docs V
      → Result ValueError (List String × Docs V)
  unfolding chunk_text
  add_document_text is_space text metadata chunk_size overlap new_id docs =
      add_chunks new_id metadata docs (chunk_text is_space text chunk_size overlap)

  module _ (similarity : V → V → ℕ) where
    abbrev pub scored_by : V → Document × V → ScoredDocument
    scored_by query (doc, vec) = record { document = doc; score = similarity query vec }

    abbrev pub scored : String → Docs V → List ScoredDocument
    scored query docs = map (scored_by (embedder query)) (values docs)

    -- `search`
    unfoldable pub search : String → ℕ → Docs V → List ScoredDocument
    search query k docs = take k (ranked (scored query docs))

    -- `Retriever.retrieve`
    unfoldable pub retrieve : (k min_score : ℕ) → String → Docs V → List ScoredDocument
    unfolding search
    retrieve k min_score query docs = filter (λ s. leb min_score s.score) (search query k docs)

    module _ (show : ℕ → String) where
      -- `f"[{i + 1}] {s.document.text}"`
      abbrev pub sections : ℕ → List ScoredDocument → List String
      sections i [] = []
      sections i (s ∷ ss) =
          str_append "[" (str_append (show (i + 1)) (str_append "] " s.document.text))
          ∷ sections (suc i) ss

      abbrev pub blank_joined : List String → String
      blank_joined [] = ""
      blank_joined (s ∷ []) = s
      blank_joined (s ∷ (t ∷ ts)) = str_append s (str_append "\n\n" (blank_joined (t ∷ ts)))

      abbrev pub context_of : List ScoredDocument → String
      context_of [] = ""
      context_of (s ∷ ss) =
          str_append
            "Answer using the following retrieved context; if it does not contain the answer, say you don't know rather than guessing.\n\n"
            (blank_joined (sections 0 (s ∷ ss)))

      -- `render_context`
      pub render_context : (k min_score : ℕ) → String → Docs V → String
      unfolding retrieve
      render_context k min_score query docs = context_of (retrieve k min_score query docs)
