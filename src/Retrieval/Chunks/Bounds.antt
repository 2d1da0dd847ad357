-- ===== src/Retrieval/Chunks/Bounds.antt =====
-- How long the chunks are, and that the cutting of one long paragraph loses nothing (chunk_text).
use na_ai.Base.{
  ℕ, zero, suc, ◌-◌, ◌≤◌, ◌<◌, String, ◌≡◌, refl, inl, inr, Bool, true, false, List, [], ◌∷◌, ◌++◌,
  str_eq, ltb, leb, arith, if◌then◌else◌, Bool-cases, All, All-append,
}
use na_ai.Base.Result.{ok}
use na_ai.Base.Texts.{
  characters, prefix, rest_after, prefix-rest_after, characters-rest_after, characters-prefix,
  prefix-prefix,
}
use na_ai.Retrieval.Chunks.{
  windows, is_full, overlapping, with_last, joined_to, add_paragraph, add_paragraphs, split_pairs,
  paragraphs_of, chunk_text,
}
use Prim.Native.Char.{Char}
use Prim.Native.String.{◌++◌ as ◌⧺◌}

-- A chunk is not empty and not longer than `chunk_size`.
abbrev pub IsChunk : ℕ → String → Type 0
IsChunk n s = (1 ≤ characters s) × (characters s ≤ n)

module _ (n step : ℕ) (positive : 1 ≤ step) (big : step ≤ n) where
  windows-IsChunk :
      (fuel : ℕ) (s : String)
      → characters s ≤ fuel
      → All (IsChunk n) (windows n step fuel s).0 × (characters (windows n step fuel s).1 ≤ n)
  unfolding windows
  windows-IsChunk zero s h = (tt, omega (arith, h))
  windows-IsChunk (suc fuel) s h = elim (Bool-cases (ltb n (characters s))) [
    | inl long ↦
        let ih =
          windows-IsChunk fuel (rest_after step s)
            (omega (arith, characters-rest_after step s, long_lt long)) in
        rw long ((chunk_of (omega (arith, long_lt long)), ih.0), ih.1)
    | inr short ↦ rw short (tt, ground arith)
  ]
    where
      chunk_of : n ≤ characters s → IsChunk n (prefix n s)
      chunk_of q = (omega (arith, characters-prefix n s q), omega (arith, characters-prefix n s q))

      long_lt : {a b : ℕ} → ltb a b ≡ true → a < b
      long_lt q = ground arith

kept_all :
    (n : ℕ) (full : Bool) (chunks : List String) (current : String)
    → (full ≡ true → IsChunk n current)
    → All (IsChunk n) chunks
    → All (IsChunk n) (if full then chunks ++ (current ∷ []) else chunks)
kept_all n true chunks current h all = All-append (IsChunk n) chunks (current ∷ []) all (h refl, tt)
kept_all n false chunks current h all = all

not_empty : (s : String) → str_eq s "" ≡ false → 1 ≤ characters s
not_empty String.[] h = absurd (cc)
not_empty (String.◌∷◌ c s) h = omega arith

full-IsChunk :
    (n : ℕ) (current para : String)
    → characters current ≤ n
    → is_full n current para ≡ true
    → IsChunk n current
full-IsChunk n current para short full = (not_empty current (ground arith), short)

module _ (is_space : Char → Bool) (n overlap : ℕ) (less : overlap < n) where
  add_paragraph-IsCut :
      (state : List String × String) (para : String)
      → All (IsChunk n) state.0 × (characters state.1 ≤ n)
      → All (IsChunk n) (add_paragraph is_space n overlap state para).0
        × (characters (add_paragraph is_space n overlap state para).1 ≤ n)
  add_paragraph-IsCut (chunks, current) para (all, short) =
      let full = is_full n current para in
      let tail = if full then overlapping overlap current else current in
      let text = joined_to is_space tail para in
      let (cut, rest) =
        windows-IsChunk n (n - overlap) (omega arith) (omega arith) (characters text) text
          (omega arith) in
      (
        All-append (IsChunk n) (if full then chunks ++ (current ∷ []) else chunks) _
            (kept_all n full chunks current (full-IsChunk n current para short) all) cut,
        rest,
      )

  add_paragraphs-IsCut :
      (ps : List String) (state : List String × String)
      → All (IsChunk n) state.0 × (characters state.1 ≤ n)
      → All (IsChunk n) (add_paragraphs is_space n overlap state ps).0
        × (characters (add_paragraphs is_space n overlap state ps).1 ≤ n)
  add_paragraphs-IsCut [] state h = h
  add_paragraphs-IsCut (p ∷ ps) state h =
      add_paragraphs-IsCut ps (add_paragraph is_space n overlap state p)
        (add_paragraph-IsCut state p h)

  with_last-IsChunk :
      (chunks : List String) (current : String)
      → All (IsChunk n) chunks
      → characters current ≤ n
      → All (IsChunk n) (with_last (chunks, current))
  with_last-IsChunk chunks current all short = elim (Bool-cases (str_eq current "")) [
    | inl empty ↦ rw empty all
    | inr full ↦
        rw full
          (All-append (IsChunk n) chunks (current ∷ []) all ((not_empty current full, short), tt))
  ]

  -- With an overlap below the chunk size, whatever the text and whatever counts as space, a text is
  -- cut without an error, and every chunk has at least one and at most `chunk_size` characters.
  pub chunk_text-IsChunk :
      (text : String)
      → (chunks : List String) × (chunk_text is_space text n overlap ≡ ok chunks)
        × All (IsChunk n) chunks
  unfolding chunk_text
  chunk_text-IsChunk text =
      let ps = paragraphs_of is_space (split_pairs text) in
      let h = add_paragraphs-IsCut ps ([], "") (tt, omega arith) in
      let no_error : leb n overlap ≡ false = ground (arith, less) in
      (
        with_last (add_paragraphs is_space n overlap ([], "") ps),
        rw no_error refl,
        with_last-IsChunk _ _ h.0 h.1,
      )

-- The first `step` characters of each window, and then the rest.
abbrev pub stitched : ℕ → List String × String → String
stitched step ([], rest) = rest
stitched step (w ∷ ws, rest) = prefix step w ⧺ stitched step (ws, rest)

-- The windows into which a long paragraph is cut, each begun a step of at most the chunk size
-- behind the last one, give it back: the first `step` characters of each, and then the rest, are
-- its text. So no character is lost, on whatever fuel.
pub stitched-windows :
    (n step fuel : ℕ) (s : String) → step ≤ n → stitched step (windows n step fuel s) ≡ s
unfolding windows
stitched-windows n step zero s h = refl
stitched-windows n step (suc fuel) s h = elim (Bool-cases (ltb n (characters s))) [
  | inl long ↦
      rw (long, prefix-prefix step n s h, stitched-windows n step fuel (rest_after step s) h)
        (prefix-rest_after step s)
  | inr short ↦ rw short refl
]
