-- ===== src/Memory/Rehearsal/Tests.antt =====
-- The mix, with a choice that takes the first golden pairs and a shuffle that leaves them in order.
use na_ai.Base.{
  ℕ, zero, suc, ◌≤◌, String, ◌≡◌, refl, ap, List, [], ◌∷◌, ◌++◌, none, leb→le, take, drop, length,
  arith,
}
use na_ai.Base.Result.{ok, err}
use na_ai.Memory.Pairs.{Pair}
use na_ai.Memory.Rehearsal.{
  RehearsalBuffer, ratio_out_of_range, new, round_half_even, mix, IsRandom, IsShare, mix_lem,
}
use mathlib.Core.List.{Perm}
use mathlib.Core.List.Perm

abbrev first_of : List Pair → ℕ → List Pair
first_of xs k = take k xs

abbrev same : List Pair → List Pair
same xs = xs

take-drop : (k : ℕ) (xs : List Pair) → take k xs ++ drop k xs ≡ xs
take-drop zero xs = refl
take-drop (suc k) [] = refl
take-drop (suc k) (x ∷ xs) = ap (◌∷◌ x) (take-drop k xs)

take_whole : (k : ℕ) (xs : List Pair) → k ≤ length xs → length (take k xs) ≡ k
take_whole zero xs h = refl
take_whole (suc k) [] h = absurd (omega arith)
take_whole (suc k) (x ∷ xs) h = ap suc (take_whole k xs (omega arith))

first_of-IsRandom : IsRandom first_of same
first_of-IsRandom = record {
  chosen =
      λ xs k h. (drop k xs, rw (take-drop k xs) Perm.rfl, take_whole k xs (leb→le k (length xs) h));
  shuffled = λ xs. Perm.rfl;
}

abbrev pair : String → Pair
pair s = record { prompt = s; completion = s; system = none; feedback = none }

abbrev buffer : RehearsalBuffer
buffer = record { pairs = pair "a" ∷ pair "b" ∷ []; parts = 1; whole = 5 }

buffer_constructed : new (pair "a" ∷ pair "b" ∷ []) 1 5 ≡ ok buffer
unfolding new
buffer_constructed = refl

mix_lem_example :
    (golden rest : List Pair) × Perm
      (mix first_of same buffer (pair "new" ∷ []))
      ((pair "new" ∷ []) ++ golden)
    × Perm (golden ++ rest) (pair "a" ∷ pair "b" ∷ [])
    × IsShare 1 5 1 (length golden) 2
mix_lem_example =
    mix_lem first_of same first_of-IsRandom (pair "a" ∷ pair "b" ∷ []) 1 5 buffer (pair "new") []
      buffer_constructed

half_to_even : (round_half_even 5 2 ≡ 2) × (round_half_even 7 2 ≡ 4)
half_to_even = (refl, refl)

no_new_data : new [] 0 5 ≡ err ratio_out_of_range
unfolding new
no_new_data = refl
