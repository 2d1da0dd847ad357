-- ===== src/Memory/Buffer/Watermark.antt =====
-- What a fetch since a watermark returns (InteractionBuffer.fetch).
use na_ai.Base.{
  ℕ, ◌≤◌, ◌<◌, max, ◌≡◌, refl, sym, ap, ◌∙◌, ◌⊎◌, inl, inr, Bool, true, false, Option, none, some,
  List, [], ◌∷◌, arith, ltb, Bool-cases, filter,
}
use na_ai.Memory.Buffer.{
  Interaction, InteractionBuffer, is_before, insert_sorted, sorted, in_session, is_since, fetch,
}

-- The latest time of some rows, or 0.
abbrev pub latest : List Interaction → ℕ
latest [] = 0
latest (r ∷ rs) = max r.created_at (latest rs)

latest-insert_sorted :
    (r : Interaction) (rs : List Interaction)
    → latest (insert_sorted r rs) ≡ max r.created_at (latest rs)
unfolding insert_sorted
latest-insert_sorted r [] = refl
latest-insert_sorted r (s ∷ rs) = elim (Bool-cases (is_before s r)) [
  | inl before ↦ rw before (omega (arith, latest-insert_sorted r rs))
  | inr behind ↦ rw behind refl
]

pub latest-sorted : (rs : List Interaction) → latest (sorted rs) ≡ latest rs
unfolding sorted
latest-sorted [] = refl
latest-sorted (r ∷ rs) = omega (arith, latest-insert_sorted r (sorted rs), latest-sorted rs)

pub is_empty : List Interaction → Bool
is_empty [] = true
is_empty (r ∷ rs) = false

unsessioned : (rs : List Interaction) → filter (in_session none) rs ≡ rs
unsessioned [] = refl
unsessioned (r ∷ rs) = ap (λ l. r ∷ l) (unsessioned rs)

-- Where no row is since the watermark, the rows that are since an earlier one are no later than it.
pub late_bound :
    (since : Option ℕ) (t : ℕ) (rows : List Interaction)
    → latest (filter (is_since since) rows) ≤ t
    → ((r : Interaction) → is_since since r ≡ false → r.created_at ≤ t)
    → filter (is_since (some t)) rows ≡ []
late_bound since t [] le old = refl
late_bound since t (r ∷ rows) le old = elim (Bool-cases (is_since since r)) [
  | inl new ↦
      let le' : max r.created_at (latest (filter (is_since since) rows)) ≤ t = rw new at le in
      let early : ltb t r.created_at ≡ false = ground arith in
      rw early (late_bound since t rows (omega arith) old)
  | inr passed ↦
      let le' : latest (filter (is_since since) rows) ≤ t = rw passed at le in
      let early : ltb t r.created_at ≡ false = ground (arith, old r passed) in
      rw early (late_bound since t rows le' old)
]

since_lt :
    (w : ℕ) (rows : List Interaction)
    → (filter (is_since (some w)) rows ≡ []) ⊎ (w < latest (filter (is_since (some w)) rows))
since_lt w [] = inl refl
since_lt w (r ∷ rows) = elim (Bool-cases (ltb w r.created_at)) [
  | inl new ↦ rw new (inr (ground arith))
  | inr passed ↦ rw passed (since_lt w rows)
]

-- The times of rows that are not since the watermark are no later than those that are.
old_le :
    (since : Option ℕ) (rows : List Interaction)
    → (filter (is_since since) rows ≡ [])
      ⊎ ((r : Interaction)
          → is_since since r ≡ false
          → r.created_at ≤ latest (filter (is_since since) rows))
old_le none rows = inr (λ r h. absurd (cc))
old_le (some w) rows = elim (since_lt w rows) [
  | inl e ↦ inl e
  | inr lt ↦ inr (λ r h. ground (arith, lt))
]

sorted-cons :
    (rs : List Interaction) (r : Interaction)
    → (s : Interaction) × (ss : List Interaction) × (insert_sorted r rs ≡ s ∷ ss)
unfolding insert_sorted
sorted-cons [] r = (r, [], refl)
sorted-cons (t ∷ rs) r = elim (Bool-cases (is_before t r)) [
  | inl before ↦ rw before (t, insert_sorted r rs, refl)
  | inr behind ↦ rw behind (r, t ∷ rs, refl)
]

pub fetch-all :
    (since : Option ℕ) (b : InteractionBuffer)
    → fetch none none since b ≡ sorted (filter (is_since since) b.rows)
unfolding fetch
fetch-all since b = ap (λ l. sorted (filter (is_since since) l)) (unsessioned b.rows)

-- Either nothing is since the watermark, or what is has a latest time, since which nothing is.
pub fetch_twice :
    (since : Option ℕ) (b : InteractionBuffer)
    → (fetch none none since b ≡ [])
      ⊎ ((s : Interaction) × (ss : List Interaction) × (fetch none none since b ≡ s ∷ ss)
          × (filter (is_since (some (latest (s ∷ ss)))) b.rows ≡ []))
unfolding sorted
fetch_twice since b = go (filter (is_since since) b.rows) refl
  where
    go :
        (f : List Interaction)
        → filter (is_since since) b.rows ≡ f
        → (fetch none none since b ≡ [])
          ⊎ ((s : Interaction) × (ss : List Interaction) × (fetch none none since b ≡ s ∷ ss)
              × (filter (is_since (some (latest (s ∷ ss)))) b.rows ≡ []))
    go [] e = inl (fetch-all since b ∙ ap sorted e)
    go (r ∷ rs) e =
        let (s, ss, q) = sorted-cons (sorted rs) r in
        let same : latest (filter (is_since since) b.rows) ≡ latest (s ∷ ss) =
          ap latest e ∙ sym (latest-sorted (r ∷ rs)) ∙ ap latest q in
        elim (old_le since b.rows) [
          | inl none_new ↦ absurd (cc)
          | inr old ↦ inr (
            s,
            ss,
            fetch-all since b ∙ ap sorted e ∙ q,
            late_bound since (latest (s ∷ ss)) b.rows (omega (arith, same))
                (λ x h. omega (arith, same, old x h)),
          )
        ]
