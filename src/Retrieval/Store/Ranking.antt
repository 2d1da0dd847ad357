-- ===== src/Retrieval/Store/Ranking.antt =====
-- What a search finds (InMemoryVectorStore.search).
use na_ai.Base.{
  ℕ, zero, suc, ◌≤◌, min, String, ◌≡◌, refl, ap, ◌∙◌, inl, inr, List, [], ◌∷◌, ◌++◌, length, take,
  drop, leb, arith, Bool-cases, All,
}
use na_ai.Retrieval.Store.{ScoredDocument, Docs, ranked_in, ranked, scored, search}
use mathlib.Core.List.{Perm}
use mathlib.Core.List.Perm

-- No document scores more than one before it.
abbrev pub IsDescending : List ScoredDocument → Type 0
IsDescending [] = Unit
IsDescending (x ∷ xs) = All (λ y. y.score ≤ x.score) xs × IsDescending xs

ranked_in-Perm : (x : ScoredDocument) (xs : List ScoredDocument) → Perm (ranked_in x xs) (x ∷ xs)
unfolding ranked_in
ranked_in-Perm x [] = Perm.rfl
ranked_in-Perm x (y ∷ ys) = elim (Bool-cases (leb y.score x.score)) [
  | inl here ↦ rw here Perm.rfl
  | inr later ↦ rw later (Perm.trans (Perm.cons y (ranked_in-Perm x ys)) (Perm.swap x y ys))
]

ranked-Perm : (xs : List ScoredDocument) → Perm (ranked xs) xs
unfolding ranked
ranked-Perm [] = Perm.rfl
ranked-Perm (x ∷ xs) = Perm.trans (ranked_in-Perm x (ranked xs)) (Perm.cons x (ranked-Perm xs))

All-ranked_in :
    {n : ℕ} (x : ScoredDocument) (xs : List ScoredDocument)
    → x.score ≤ n
    → All (λ y. y.score ≤ n) xs
    → All (λ y. y.score ≤ n) (ranked_in x xs)
unfolding ranked_in
All-ranked_in x [] h k = (h, tt)
All-ranked_in x (y ∷ ys) h k = elim (Bool-cases (leb y.score x.score)) [
  | inl here ↦ rw here (h, k)
  | inr later ↦ rw later (k.0, All-ranked_in x ys h k.1)
]

All-le :
    {m n : ℕ} (xs : List ScoredDocument)
    → m ≤ n
    → All (λ y. y.score ≤ m) xs
    → All (λ y. y.score ≤ n) xs
All-le [] h k = tt
All-le (x ∷ xs) h k = (omega (arith, k.0), All-le xs h k.1)

ranked_in-IsDescending :
    (x : ScoredDocument) (xs : List ScoredDocument)
    → IsDescending xs
    → IsDescending (ranked_in x xs)
unfolding ranked_in
ranked_in-IsDescending x [] h = (tt, tt)
ranked_in-IsDescending x (y ∷ ys) h = elim (Bool-cases (leb y.score x.score)) [
  | inl here ↦ let q : y.score ≤ x.score = ground arith in rw here ((q, All-le ys q h.0), h)
  | inr later ↦ rw later (All-ranked_in x ys (ground arith) h.0, ranked_in-IsDescending x ys h.1)
]

ranked-IsDescending : (xs : List ScoredDocument) → IsDescending (ranked xs)
unfolding ranked
ranked-IsDescending [] = tt
ranked-IsDescending (x ∷ xs) = ranked_in-IsDescending x (ranked xs) (ranked-IsDescending xs)

length-ranked_in :
    (x : ScoredDocument) (xs : List ScoredDocument) → length (ranked_in x xs) ≡ suc (length xs)
unfolding ranked_in
length-ranked_in x [] = refl
length-ranked_in x (y ∷ ys) = ground (arith, length-ranked_in x ys)

length-ranked : (xs : List ScoredDocument) → length (ranked xs) ≡ length xs
unfolding ranked
length-ranked [] = refl
length-ranked (x ∷ xs) = length-ranked_in x (ranked xs) ∙ ap suc (length-ranked xs)

take-drop : (n : ℕ) (xs : List ScoredDocument) → take n xs ++ drop n xs ≡ xs
take-drop zero xs = refl
take-drop (suc n) [] = refl
take-drop (suc n) (x ∷ xs) = ap (◌∷◌ x) (take-drop n xs)

length_of_take : (n : ℕ) (xs : List ScoredDocument) → length (take n xs) ≡ min n (length xs)
length_of_take zero xs = omega arith
length_of_take (suc n) [] = omega arith
length_of_take (suc n) (x ∷ xs) = omega (arith, length_of_take n xs)

module _ {V : Type 0} (embedder : String → V) (similarity : V → V → ℕ) where
  length-scored :
      (query : String) (docs : Docs V)
      → length (scored embedder similarity query docs) ≡ length docs
  length-scored query [] = refl
  length-scored query ((id, entry) ∷ docs) = ap suc (length-scored query docs)

  -- A search finds as many documents as there are, and `k` at most. With the ones it leaves out they
  -- are the stored documents, each once, with their scores for the query; and no document scores more
  -- than one found before it, so none that is left out scores more than one that is found.
  pub search-IsDescending :
      (query : String) (k : ℕ) (docs : Docs V)
      → (rest : List ScoredDocument) × Perm
          (search embedder similarity query k docs ++ rest)
          (scored embedder similarity query docs)
        × IsDescending (search embedder similarity query k docs ++ rest)
        × (length (search embedder similarity query k docs) ≡ min k (length docs))
  unfolding search
  search-IsDescending query k docs =
      let found = scored embedder similarity query docs in
      (
        drop k (ranked found),
        rw (take-drop k (ranked found)) (ranked-Perm found),
        rw (take-drop k (ranked found)) (ranked-IsDescending found),
        length_of_take k (ranked found)
            ∙ ap (min k) (length-ranked found ∙ length-scored query docs),
      )
