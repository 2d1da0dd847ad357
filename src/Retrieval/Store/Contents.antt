-- ===== src/Retrieval/Store/Contents.antt =====
-- What a store holds, against an abstract map of documents (InMemoryVectorStore.add, delete).
use na_ai.Base.{
  String, ◌≡◌, refl, inl, inr, Option, none, some, List, [], ◌∷◌, str_eq, if◌then◌else◌, Bool-cases,
}
use na_ai.Base.Dict.{lookup, insert, remove, lookup-insert, lookup-remove}
use na_ai.Retrieval.Store.{Document, Docs, delete, indexed}

-- The calls that change a store.
pub data Call : Type 0 where
  add_call : List Document → Call
  delete_call : List String → Call

-- The abstract store: which document an identifier leads to.
abbrev pub Library : Type 0
Library = String → Option Document

abbrev pub shelved : List Document → Library → Library
shelved [] lib = lib
shelved (d ∷ ds) lib = shelved ds (λ k. if str_eq d.id k then some d else lib k)

abbrev pub removed : List String → Library → Library
removed [] lib = lib
removed (id ∷ ids) lib = removed ids (λ k. if str_eq id k then none else lib k)

abbrev pub specified : List Call → Library → Library
specified [] lib = lib
specified (add_call ds ∷ cs) lib = specified cs (shelved ds lib)
specified (delete_call ids ∷ cs) lib = specified cs (removed ids lib)

module _ {V : Type 0} (embedder : String → V) where
  abbrev pub performed : List Call → Docs V → Docs V
  performed [] docs = docs
  performed (add_call ds ∷ cs) docs = performed cs (indexed embedder ds docs)
  performed (delete_call ids ∷ cs) docs = performed cs (delete ids docs)

  abbrev pub entry : Option Document → Option (Document × V)
  entry none = none
  entry (some d) = some (d, embedder d.text)

  -- A store that holds what the abstract one does, each document with the vector of its own text.
  abbrev pub Represents : Docs V → Library → Type 0
  Represents docs lib = (k : String) → lookup k docs ≡ entry (lib k)

  entry-if :
      (id k : String) (o p : Option Document)
      → entry (if str_eq id k then o else p) ≡ (if str_eq id k then entry o else entry p)
  entry-if id k o p = elim (Bool-cases (str_eq id k)) [
    | inl same ↦ rw same refl
    | inr other ↦ rw other refl
  ]

  indexed-Represents :
      (ds : List Document) (docs : Docs V) (lib : Library)
      → Represents docs lib
      → Represents (indexed embedder ds docs) (shelved ds lib)
  unfolding indexed
  indexed-Represents [] docs lib h = h
  indexed-Represents (d ∷ ds) docs lib h =
      indexed-Represents ds (insert d.id (d, embedder d.text) docs) _ λ k.
        rw (lookup-insert d.id k (d, embedder d.text) docs, h k, entry-if d.id k (some d) (lib k))
          refl

  delete-Represents :
      (ids : List String) (docs : Docs V) (lib : Library)
      → Represents docs lib
      → Represents (delete ids docs) (removed ids lib)
  unfolding delete
  delete-Represents [] docs lib h = h
  delete-Represents (id ∷ ids) docs lib h =
      delete-Represents ids (remove id docs) _
        λ k. rw (lookup-remove id k docs, h k, entry-if id k none (lib k)) refl

  -- After any calls of `add` and `delete` on a store that holds what an abstract map of documents
  -- does, it still holds exactly what the map does after them: an identifier leads to the document
  -- that was added last under it, and to none once it has been deleted; and each document stands
  -- with the vector of its own text.
  pub performed-Represents :
      (cs : List Call) (docs : Docs V) (lib : Library)
      → Represents docs lib
      → Represents (performed cs docs) (specified cs lib)
  performed-Represents [] docs lib h = h
  performed-Represents (add_call ds ∷ cs) docs lib h =
      performed-Represents cs (indexed embedder ds docs) (shelved ds lib)
        (indexed-Represents ds docs lib h)
  performed-Represents (delete_call ids ∷ cs) docs lib h =
      performed-Represents cs (delete ids docs) (removed ids lib) (delete-Represents ids docs lib h)
