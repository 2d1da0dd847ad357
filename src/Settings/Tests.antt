-- ===== src/Settings/Tests.antt =====
-- The settings, at two lists of keys.
use na_ai.Base.{◌≡◌, refl, Bool, false, [], ◌∷◌, ◌==◌, All}
use na_ai.Base.Result.{ok, err}
use na_ai.Settings.{
  split_csv, no_api_keys, validate_security, is_nil, IsNotEmpty, validate_security-split_csv,
}
use Prim.Native.Char.{Char, code}

abbrev is_blank : Char → Bool
is_blank c = code c == 32

two_keys : split_csv is_blank " key1, key2 ," ≡ "key1" ∷ "key2" ∷ []
unfolding split_csv
two_keys = refl

only_blanks : validate_security false (split_csv is_blank " , ") ≡ err no_api_keys
unfolding validate_security split_csv
only_blanks = refl

two_keys_suffice : validate_security false (split_csv is_blank "key1, key2") ≡ ok tt
unfolding validate_security split_csv
two_keys_suffice = refl

two_keys_listed :
    (is_nil (split_csv is_blank "key1, key2") ≡ false)
    × All IsNotEmpty (split_csv is_blank "key1, key2")
two_keys_listed = validate_security-split_csv is_blank "key1, key2" two_keys_suffice
