-- ===== src/Memory/Rehearsal.antt =====
-- The rehearsal buffer of omniai/memory/rehearsal.py. The share of new data is the fraction
-- `parts / whole`; the random choice and the shuffle are parameters.
mod Tests
use na_ai.Base.{
  ℕ, ◌+◌, ◌-◌, ◌*◌, ◌/◌, ◌%◌, min, String, ◌≡◌, true, ◌&&◌, ◌||◌, Option, none, some, List, [], ◌∷◌,
  ◌++◌, ltb, leb, ◌==◌, if◌then◌else◌, length, le→leb, arith, ◌<◌, ◌≤◌, ◌⊎◌, inl, inr, ap,
  Bool-cases,
}
use native.Mathlib.Nat.{div-add-mod, mod-lt, mul-add, mul-sub, mul_comm, mul-le-mul_left}
use na_ai.Base.Dict.{Dict, lookup}
use na_ai.Base.Result.{Result, ok, err}
use na_ai.Memory.Pairs.{Pair}
use mathlib.Core.List.{Perm}
use mathlib.Core.Path.{subst}

pub record RehearsalBuffer : Type 0 where
  pub pairs : List Pair
  pub parts : ℕ
  pub whole : ℕ

pub data ValueError : Type 0 where
  ratio_out_of_range : ValueError

-- `__init__`, for a fraction with a positive denominator.
unfoldable pub new : List Pair → (parts whole : ℕ) → Result ValueError RehearsalBuffer
new pairs parts whole =
    if ltb 0 parts && leb parts whole
    then ok (record { pairs = pairs; parts = parts; whole = whole })
    else err ratio_out_of_range

abbrev pub or_key : Option String → Option String → String
or_key (some s) o = s
or_key none (some s) = s
or_key none none = ""

-- The pair of one row of `from_jsonl`.
abbrev pub pair_of : Dict String → Pair
pair_of row = record {
  prompt = or_key (lookup "prompt" row) (lookup "instruction" row);
  completion = or_key (lookup "completion" row) (lookup "output" row);
  system = none;
  feedback = none;
}

-- `round(n / d)` rounds a half to the even neighbour.
abbrev pub round_half_even : ℕ → ℕ → ℕ
round_half_even n d =
    if ltb (2 * (n % d)) d || ((2 * (n % d) == d) && (n / d % 2 == 0)) then n / d else n / d + 1

-- `round(len(new_pairs) * (1 - ratio) / ratio)`
abbrev pub rehearsal_target : RehearsalBuffer → ℕ → ℕ
rehearsal_target b n = round_half_even (n * (b.whole - b.parts)) b.parts

module _ (sample : List Pair → ℕ → List Pair) (shuffle : List Pair → List Pair) where
  abbrev pub rehearsed : RehearsalBuffer → List Pair → List Pair
  rehearsed b new_pairs =
      sample b.pairs (min (rehearsal_target b (length new_pairs)) (length b.pairs))

  -- `mix`
  unfoldable pub mix : RehearsalBuffer → List Pair → List Pair
  mix b [] = []
  mix b (p ∷ ps) = shuffle ((p ∷ ps) ++ rehearsed b (p ∷ ps))

-- What `random.sample` and `random.shuffle` promise: `k` of the elements at different places, where
-- there are as many, and the same elements in some order.
pub record IsRandom (sample : List Pair → ℕ → List Pair) (shuffle : List Pair → List Pair)
    : Type 0 where
  pub chosen :
      (xs : List Pair) (k : ℕ)
      → leb k (length xs) ≡ true
      → (rest : List Pair) × Perm (sample xs k ++ rest) xs × (length (sample xs k) ≡ k)
  pub shuffled : (xs : List Pair) → Perm (shuffle xs) xs

-- `round_half_even n d` times `d` is `n`, up to half of `d`.
round_half_even-near :
    (n d : ℕ)
    → 0 < d
    → (2 * (d * round_half_even n d) ≤ 2 * n + d) × (2 * n ≤ 2 * (d * round_half_even n d) + d)
round_half_even-near n d h =
    let whole : d * (n / d) + n % d ≡ n = div-add-mod n d in
    let part : n % d < d = mod-lt n h in
    let up : d * (n / d + 1) ≡ d * (n / d) + d * 1 = mul-add d (n / d) 1 in
    (ground (arith, whole, part, up), ground (arith, whole, part, up))

min-leb : (a b : ℕ) → leb (min a b) b ≡ true
min-leb a b = le→leb (min a b) b (omega arith)

new-range :
    (pairs : List Pair) (parts whole : ℕ) (b : RehearsalBuffer)
    → new pairs parts whole ≡ ok b
    → (b ≡ record { pairs = pairs; parts = parts; whole = whole })
      × (0 < b.parts)
      × (b.parts ≤ b.whole)
unfolding new
new-range pairs parts whole b h = (ground arith, ground arith, ground arith)

-- `g` golden pairs beside `n` new ones: the number of them all is `n` times `whole / parts`, up to one
-- half; but it may be less where all the golden pairs that are available are among them.
abbrev pub IsShare : (parts whole n g available : ℕ) → Type 0
IsShare parts whole n g available =
    (2 * (parts * (n + g)) ≤ 2 * (n * whole) + parts)
    × ((g ≡ available) ⊎ (2 * (n * whole) ≤ 2 * (parts * (n + g)) + parts))

split_whole : (n parts whole : ℕ) → parts ≤ whole → n * whole ≡ n * (whole - parts) + parts * n
split_whole n parts whole h =
    omega (arith, mul-sub n whole parts, mul_comm n parts, mul-le-mul_left n h)

target-IsShare :
    (b : RehearsalBuffer) (n g : ℕ)
    → 0 < b.parts
    → b.parts ≤ b.whole
    → g ≡ min (rehearsal_target b n) (length b.pairs)
    → IsShare b.parts b.whole n g (length b.pairs)
target-IsShare b n g some_new h e =
    let t = rehearsal_target b n in
    let (above, below) = round_half_even-near (n * (b.whole - b.parts)) b.parts some_new in
    let least : g ≤ t = omega arith in
    let fewer : b.parts * g ≤ b.parts * t = mul-le-mul_left b.parts least in
    let apart : b.parts * (n + g) ≡ b.parts * n + b.parts * g = mul-add b.parts n g in
    let all_new : n * b.whole ≡ n * (b.whole - b.parts) + b.parts * n =
      split_whole n b.parts b.whole h in
    (
      omega (arith, above, fewer, apart, all_new),
      elim (Bool-cases (leb t (length b.pairs))) [
        | inl enough ↦
            let same : b.parts * g ≡ b.parts * t = ap (λ k. b.parts * k) (ground arith) in
            inr (omega (arith, below, same, apart, all_new))
        | inr few ↦ inl (ground arith)
      ],
    )

module _ (sample : List Pair → ℕ → List Pair) (shuffle : List Pair → List Pair)
    (random : IsRandom sample shuffle) where
  -- Where the choice and the shuffle are random ones, and there is a new pair: a mix of a buffer that
  -- was constructed without an error holds every new pair and golden pairs, each of these once, in
  -- some order. The number of its pairs is that of the new ones divided by the ratio, up to one half;
  -- or it is less and the mix holds as many golden pairs as there are.
  pub mix_lem :
      (pairs : List Pair) (parts whole : ℕ) (b : RehearsalBuffer) (p : Pair) (ps : List Pair)
      → new pairs parts whole ≡ ok b
      → (golden rest : List Pair) × Perm (mix sample shuffle b (p ∷ ps)) ((p ∷ ps) ++ golden)
        × Perm (golden ++ rest) pairs
        × IsShare parts whole (length (p ∷ ps)) (length golden) (length pairs)
  unfolding mix
  mix_lem pairs parts whole b p ps e =
      let (q, some_new, in_range) = new-range pairs parts whole b e in
      let (rest, part, size) =
        random.chosen b.pairs (min (rehearsal_target b (length (p ∷ ps))) (length b.pairs))
          (min-leb (rehearsal_target b (length (p ∷ ps))) (length b.pairs)) in
      (
        rehearsed sample shuffle b (p ∷ ps),
        rest,
        random.shuffled _,
        subst (λ c. Perm (rehearsed sample shuffle b (p ∷ ps) ++ rest) c.pairs) q part,
        subst
            (λ c.
              IsShare c.parts c.whole (length (p ∷ ps))
                (length (rehearsed sample shuffle b (p ∷ ps))) (length c.pairs))
            q
            (target-IsShare b (length (p ∷ ps)) (length (rehearsed sample shuffle b (p ∷ ps)))
              some_new in_range size),
      )
