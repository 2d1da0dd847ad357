-- ===== src/Settings.antt =====
-- The settings of omniai/settings.py that decide who may call the gateway.
mod Tests
use na_ai.Base.{
  String, Bool, true, false, ◌&&◌, not, ◌≡◌, refl, inl, inr, List, [], ◌∷◌, ◌==◌, str_eq,
  if◌then◌else◌, Bool-cases, All,
}
use na_ai.Base.Result.{Result, ok, err}
use na_ai.Base.Texts.{onto_first}
use na_ai.Models.Structured.{left_stripped, right_stripped, stripped}
use Prim.Native.Char.{Char, code}

-- `v.split(",")`
unfoldable pub split_commas : String → List String
split_commas String.[] = "" ∷ []
split_commas (String.◌∷◌ c s) =
    let rest = split_commas s in if code c == b',' then "" ∷ rest else onto_first c rest

module _ (is_space : Char → Bool) where
  abbrev pub stripped_items : List String → List String
  stripped_items [] = []
  stripped_items (i ∷ is) =
      let rest = stripped_items is in
      if str_eq (stripped is_space i) "" then rest else stripped is_space i ∷ rest

  -- `_split_csv` of a text
  unfoldable pub split_csv : String → List String
  unfolding split_commas left_stripped right_stripped
  split_csv v = stripped_items (split_commas v)

pub data SecurityError : Type 0 where
  no_api_keys : SecurityError

abbrev pub is_nil : List String → Bool
is_nil [] = true
is_nil (x ∷ xs) = false

-- `validate_security`
unfoldable pub validate_security :
    (auth_disabled : Bool) → List String → Result SecurityError (Unit {0})
validate_security auth_disabled api_keys =
    if not auth_disabled && is_nil api_keys then err no_api_keys else ok tt

abbrev pub IsNotEmpty : String → Type 0
IsNotEmpty s = str_eq s "" ≡ false

module _ (is_space : Char → Bool) where
  stripped_items-IsNotEmpty : (is : List String) → All IsNotEmpty (stripped_items is_space is)
  stripped_items-IsNotEmpty [] = tt
  stripped_items-IsNotEmpty (i ∷ is) = elim (Bool-cases (str_eq (stripped is_space i) "")) [
    | inl blank ↦ rw blank (stripped_items-IsNotEmpty is)
    | inr key ↦ rw key (key, stripped_items-IsNotEmpty is)
  ]

  validated_keys : (keys : List String) → validate_security false keys ≡ ok tt → is_nil keys ≡ false
  unfolding validate_security
  validated_keys [] h = absurd (cc)
  validated_keys (k ∷ ks) h = refl

  -- Settings that are accepted with authentication on have an API key, and none of the keys that a
  -- text lists is empty: a list of blanks and commas is refused.
  pub validate_security-split_csv :
      (v : String)
      → validate_security false (split_csv is_space v) ≡ ok tt
      → (is_nil (split_csv is_space v) ≡ false) × All IsNotEmpty (split_csv is_space v)
  unfolding split_csv
  validate_security-split_csv v h = (validated_keys _ h, stripped_items-IsNotEmpty (split_commas v))
