-- ===== src/Base/Texts.antt =====
-- The characters of a text and its slices.
use Prim.Native.Nat.{ℕ, zero, suc, ◌+◌, ◌≤◌, max}
use Prim.Native.String.{String, ◌++◌ as ◌⧺◌}
use Prim.Native.Char.{Char}
use mathlib.Core.List.{List, [], ◌∷◌}
use mathlib.Core.Path.{◌≡◌, refl, ap, ◌∙◌}
use native.Mathlib.Omega.{arith}
use text.Mathlib.TextLemmas.{nil-append, cons-append}

abbrev pub characters : String → ℕ
characters String.[] = 0
characters (String.◌∷◌ c s) = suc (characters s)

-- `text[:n]` and `text[n:]`
unfoldable pub prefix : ℕ → String → String
prefix zero s = ""
prefix (suc n) String.[] = ""
prefix (suc n) (String.◌∷◌ c s) = String.◌∷◌ c (prefix n s)

unfoldable pub rest_after : ℕ → String → String
rest_after zero s = s
rest_after (suc n) String.[] = ""
rest_after (suc n) (String.◌∷◌ c s) = rest_after n s

pub prefix-le : (n : ℕ) (s : String) → characters (prefix n s) ≤ n
unfolding prefix
prefix-le zero s = omega arith
prefix-le (suc n) String.[] = omega arith
prefix-le (suc n) (String.◌∷◌ c s) = omega (arith, prefix-le n s)

pub prefix_all : (n : ℕ) (s : String) → characters s ≤ n → prefix n s ≡ s
unfolding prefix
prefix_all zero String.[] h = refl
prefix_all zero (String.◌∷◌ c s) h = absurd (omega arith)
prefix_all (suc n) String.[] h = refl
prefix_all (suc n) (String.◌∷◌ c s) h = ap (λ t. String.◌∷◌ c t) (prefix_all n s (omega arith))

pub prefix-rest_after : (n : ℕ) (s : String) → prefix n s ⧺ rest_after n s ≡ s
unfolding prefix rest_after
prefix-rest_after zero s = nil-append s
prefix-rest_after (suc n) String.[] = nil-append ""
prefix-rest_after (suc n) (String.◌∷◌ c s) =
    cons-append c (prefix n s) (rest_after n s) ∙ ap (λ t. String.◌∷◌ c t) (prefix-rest_after n s)

pub characters-rest_after :
    (n : ℕ) (s : String) → characters (rest_after n s) + n ≡ max (characters s) n
unfolding rest_after
characters-rest_after zero s = omega arith
characters-rest_after (suc n) String.[] = omega arith
characters-rest_after (suc n) (String.◌∷◌ c s) = omega (arith, characters-rest_after n s)

pub characters-prefix : (n : ℕ) (s : String) → n ≤ characters s → characters (prefix n s) ≡ n
unfolding prefix
characters-prefix zero s h = refl
characters-prefix (suc n) String.[] h = absurd (omega arith)
characters-prefix (suc n) (String.◌∷◌ c s) h = omega (arith, characters-prefix n s (omega arith))

pub prefix-prefix : (k n : ℕ) (s : String) → k ≤ n → prefix k (prefix n s) ≡ prefix k s
unfolding prefix
prefix-prefix zero n s h = refl
prefix-prefix (suc k) zero s h = absurd (omega arith)
prefix-prefix (suc k) (suc n) String.[] h = refl
prefix-prefix (suc k) (suc n) (String.◌∷◌ c s) h =
    ap (λ t. String.◌∷◌ c t) (prefix-prefix k n s (omega arith))

pub characters_none : (s : String) → characters s ≡ 0 → s ≡ ""
characters_none String.[] h = refl
characters_none (String.◌∷◌ c s) h = absurd (omega arith)

-- A character in front of the first of some parts.
abbrev pub onto_first : Char → List String → List String
onto_first c [] = String.◌∷◌ c "" ∷ []
onto_first c (p ∷ ps) = String.◌∷◌ c p ∷ ps
