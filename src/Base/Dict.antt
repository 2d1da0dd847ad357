-- ===== src/Base/Dict.antt =====
-- A Python dictionary with text keys: the entries in the order of their first insertion.
use Prim.Native.Nat.{suc, ◌≤◌, ◌<◌}
use Prim.Native.String.{String}
use mathlib.Core.Path.{◌≡◌, refl, subst, ◌∙◌}
use mathlib.Core.Logic.{inl, inr}
use mathlib.Core.Bool.{Bool, true, false}
use mathlib.Core.Option.{Option, none, some}
use mathlib.Core.List.{List, [], ◌∷◌}
use native.Mathlib.Omega.{arith}
use text.Mathlib.Text.{◌==◌ as str_eq}
use text.Mathlib.TextEquality.{eq_iff}
use na_ai.Base.Tests.{if◌then◌else◌, Bool-cases}
use na_ai.Base.Lists.{length, All}

abbrev pub Dict {ℓ} : Type ℓ → Type ℓ
Dict V = List (String × V)

module _ {ℓ} {V : Type ℓ} where
  -- d.get(k)
  abbrev pub lookup : String → Dict V → Option V
  lookup k [] = none
  lookup k ((j, v) ∷ d) = if str_eq j k then some v else lookup k d

  -- k in d
  abbrev pub contains : String → Dict V → Bool
  contains k d = elim (lookup k d) [ none ↦ false | some v ↦ true ]

  -- d[k] = v: an old entry keeps its place.
  abbrev pub insert : String → V → Dict V → Dict V
  insert k v [] = (k, v) ∷ []
  insert k v ((j, w) ∷ d) = if str_eq j k then (k, v) ∷ d else (j, w) ∷ insert k v d

  -- d.pop(k, None)
  abbrev pub remove : String → Dict V → Dict V
  remove k [] = []
  remove k ((j, v) ∷ d) = let rest = remove k d in if str_eq j k then rest else (j, v) ∷ rest

  -- d.values()
  abbrev pub values : Dict V → List V
  values [] = []
  values ((j, v) ∷ d) = v ∷ values d

  pub lookup-insert :
      (k j : String) (v : V) (d : Dict V)
      → lookup j (insert k v d) ≡ (if str_eq k j then some v else lookup j d)
  lookup-insert k j v [] = refl
  lookup-insert k j v ((i, w) ∷ d) =
      ground (arith, eq_iff k j, eq_iff i k, eq_iff i j, lookup-insert k j v d)

  pub lookup-remove :
      (k j : String) (d : Dict V)
      → lookup j (remove k d) ≡ (if str_eq k j then none else lookup j d)
  lookup-remove k j [] = ground arith
  lookup-remove k j ((i, w) ∷ d) =
      ground (arith, eq_iff k j, eq_iff i k, eq_iff i j, lookup-remove k j d)

  -- A write to a key that is there keeps the size; to a new key it adds one.
  pub length-insert :
      (k : String) (v : V) (d : Dict V)
      → length (insert k v d) ≡ (if contains k d then length d else suc (length d))
  length-insert k v [] = refl
  length-insert k v ((i, w) ∷ d) = ground (arith, length-insert k v d)

  pub length-remove-le : (k : String) (d : Dict V) → length (remove k d) ≤ length d
  length-remove-le k [] = omega arith
  length-remove-le k ((i, w) ∷ d) = ground (arith, length-remove-le k d)

  -- Removing a key that is there shrinks the dictionary.
  pub length-remove-lt :
      (k : String) (d : Dict V) → contains k d ≡ true → length (remove k d) < length d
  length-remove-lt k [] h = absurd (ground arith)
  length-remove-lt k ((i, w) ∷ d) h = ground (arith, length-remove-lt k d, length-remove-le k d)

  pub contains-insert :
      (k j : String) (v : V) (d : Dict V)
      → contains j (insert k v d) ≡ (if str_eq k j then true else contains j d)
  contains-insert k j v d = ground (arith, lookup-insert k j v d)

  pub contains-remove :
      (k j : String) (d : Dict V)
      → contains j (remove k d) ≡ (if str_eq k j then false else contains j d)
  contains-remove k j d = ground (arith, lookup-remove k j d)

  -- d.update(e)
  abbrev pub updated : Dict V → Dict V → Dict V
  updated d [] = d
  updated d ((k, v) ∷ e) = updated (insert k v d) e

  -- The keys are different, as those of a Python dictionary are.
  abbrev pub IsDict : Dict V → Type 0
  IsDict [] = Unit
  IsDict ((k, v) ∷ d) = (contains k d ≡ false) × IsDict d

  abbrev pub or_of : Option V → Option V → Option V
  or_of none b = b
  or_of (some a) b = some a

  -- An update's own entries come first.
  pub lookup-updated :
      (k : String) (d e : Dict V)
      → IsDict e
      → lookup k (updated d e) ≡ or_of (lookup k e) (lookup k d)
  lookup-updated k d [] h = refl
  lookup-updated k d ((j, v) ∷ e) h =
      lookup-updated k (insert j v d) e h.1 ∙ ground (arith, h.0, lookup-insert j k v d, eq_iff j k)

-- What a key leads to is one of the values.
pub All-lookup {ℓ κ} :
    {V : Type ℓ} (P : V → Type κ) (k : String) {v : V} (d : Dict V)
    → All P (values d)
    → lookup k d ≡ some v
    → P v
All-lookup P k [] h e = absurd (cc)
All-lookup P k {v} ((j, w) ∷ d) h e = elim (Bool-cases (str_eq j k)) [
  | inl same ↦ let q : w ≡ v = ground arith in subst P q h.0
  | inr other ↦ All-lookup P k d h.1 (ground arith)
]
