-- ===== src/Guardrails/Luhn.antt =====
-- The checksum of card numbers in omniai/guardrails/middleware.py (_luhn_valid). A digit is one of
-- the ten of ASCII; the other decimal digits that Python knows do not occur here.
use na_ai.Base.{
  ℕ, ◌+◌, ◌-◌, ◌*◌, ◌%◌, ◌<◌, String, ◌≡◌, ◌≢◌, refl, sym, ap, ◌∙◌, inl, inr, Bool, true, false,
  ◌&&◌, not, List, [], ◌∷◌, ◌++◌, arith, ltb, leb, ◌==◌, if◌then◌else◌, length, Bool-cases,
}
use Prim.Native.Char.{code}
use mathlib.Core.List.{append-nil, append_assoc}

abbrev pub is_digit : ℕ → Bool
is_digit c = leb b'0' c && leb c b'9'

-- `[int(ch) for ch in candidate if ch.isdigit()]`
unfoldable pub digits_of : String → List ℕ
digits_of String.[] = []
digits_of (String.◌∷◌ c s) =
    let rest = digits_of s in if is_digit (code c) then (code c - b'0') ∷ rest else rest

-- What a digit adds: one at an odd place is doubled, less 9 where that has two digits.
abbrev pub weight : Bool → ℕ → ℕ
weight false d = d
weight true d = if ltb 9 (2 * d) then 2 * d - 9 else 2 * d

-- The loop over the reversed digits; the flag says whether the place is odd.
abbrev pub total : Bool → List ℕ → ℕ
total odd [] = 0
total odd (d ∷ ds) = weight odd d + total (not odd) ds

abbrev pub reversed : List ℕ → List ℕ
reversed [] = []
reversed (d ∷ ds) = reversed ds ++ (d ∷ [])

abbrev pub valid_digits : List ℕ → Bool
valid_digits ds = leb 13 (length ds) && leb (length ds) 19 && (total false (reversed ds) % 10 == 0)

-- `_luhn_valid`
unfoldable pub luhn_valid : String → Bool
luhn_valid s = valid_digits (digits_of s)

weight_injective : (odd : Bool) (a b : ℕ) → a < 10 → b < 10 → weight odd a ≡ weight odd b → a ≡ b
weight_injective false a b ha hb h = h
weight_injective true a b ha hb h = ground arith

weight-lt : (odd : Bool) (a : ℕ) → a < 10 → weight odd a < 10
weight-lt false a h = h
weight-lt true a h = ground arith

-- All that the total depends on beside one digit.
total_split :
    (odd : Bool) (xs ys : List ℕ)
    → (place : Bool) × (rest : ℕ) × ((a : ℕ) → total odd (xs ++ (a ∷ ys)) ≡ weight place a + rest)
total_split odd [] ys = (odd, total (not odd) ys, λ a. refl)
total_split odd (x ∷ xs) ys =
    let (place, rest, e) = total_split (not odd) xs ys in
    (place, weight odd x + rest, λ a. omega (arith, e a))

reversed-append : (xs ys : List ℕ) → reversed (xs ++ ys) ≡ reversed ys ++ reversed xs
reversed-append [] ys = sym (append-nil (reversed ys))
reversed-append (x ∷ xs) ys =
    ap (λ l. l ++ (x ∷ [])) (reversed-append xs ys)
    ∙ append_assoc (reversed ys) (reversed xs) (x ∷ [])

-- One wrong digit never goes unnoticed.
total_differs :
    (place : Bool) (rest a b : ℕ)
    → a < 10
    → b < 10
    → a ≢ b
    → (weight place a + rest) % 10 ≡ 0
    → (weight place b + rest) % 10 ≢ 0
total_differs place rest a b ha hb ne ea eb =
    ne
      (weight_injective place a b ha hb (omega (arith, weight-lt place a ha, weight-lt place b hb)))

reversed_split :
    (xs ys : List ℕ) (a : ℕ) → reversed (xs ++ (a ∷ ys)) ≡ reversed ys ++ (a ∷ reversed xs)
reversed_split xs ys a =
    reversed-append xs (a ∷ ys) ∙ append_assoc (reversed ys) (a ∷ []) (reversed xs)

valid_total : (ds : List ℕ) → valid_digits ds ≡ true → total false (reversed ds) % 10 ≡ 0
valid_total ds h = ground arith

not_valid : (ds : List ℕ) → total false (reversed ds) % 10 ≢ 0 → valid_digits ds ≡ false
not_valid ds h = elim (Bool-cases (valid_digits ds)) [
  | inl v ↦ absurd (h (valid_total ds v))
  | inr n ↦ n
]

-- The checksum notices every single wrong digit: of two candidates whose digits differ at exactly one
-- place, the other is refused where the one is a valid card number.
pub luhn_valid-one_digit :
    (s t : String) (xs ys : List ℕ) (a b : ℕ)
    → digits_of s ≡ xs ++ (a ∷ ys)
    → digits_of t ≡ xs ++ (b ∷ ys)
    → a < 10
    → b < 10
    → a ≢ b
    → luhn_valid s ≡ true
    → luhn_valid t ≡ false
unfolding luhn_valid
luhn_valid-one_digit s t xs ys a b ea eb ha hb ne valid =
    let (place, rest, e) = total_split false (reversed ys) (reversed xs) in
    let at = λ (d : ℕ). ap (total false) (reversed_split xs ys d) ∙ e d in
    let zero_sum : (weight place a + rest) % 10 ≡ 0 =
      rw (sym (at a)) (valid_total (xs ++ (a ∷ ys)) (sym (ap valid_digits ea) ∙ valid)) in
    ap valid_digits eb
    ∙ not_valid (xs ++ (b ∷ ys))
        (λ q. total_differs place rest a b ha hb ne zero_sum (rw (sym (at b)) q))
