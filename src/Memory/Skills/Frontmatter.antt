-- ===== src/Memory/Skills/Frontmatter.antt =====
-- What is written into the frontmatter of a skill file is read from it (_parse_frontmatter).
use na_ai.Base.{
  String, ◌≡◌, refl, inl, inr, Bool, true, false, Bool-cases, some, List, [], ◌∷◌, ◌++◌, map, ◌==◌,
  str_eq, if◌then◌else◌, All,
}
use na_ai.Base.Dict.{Dict, insert, updated}
use na_ai.Models.Structured.{left_stripped, stripped, starts_with}
use na_ai.Memory.Skills.{partition, joined_by, with_entry, scanned, parse_frontmatter}
use Prim.Native.Char.{Char, code}
use Prim.Native.String.{◌++◌ as ◌⧺◌}
use text.Mathlib.TextLemmas.{nil-append, cons-append}

-- A text without a colon.
abbrev pub has_colon : String → Bool
has_colon String.[] = false
has_colon (String.◌∷◌ c s) = let rest = has_colon s in if code c == b':' then true else rest

-- The line of an entry.
abbrev pub entry_line : String × String → String
entry_line (key, value) = key ⧺ String.◌∷◌ ":" (String.◌∷◌ " " value)

module _ (is_space : Char → Bool) where
  -- An entry that can be written on a line of its own: its key and value have no space around them,
  -- the key no colon, and the line is not the fence.
  pub record IsEntry (e : String × String) : Type 0 where
    pub key_stripped : stripped is_space e.0 ≡ e.0
    pub value_stripped : stripped is_space e.1 ≡ e.1
    pub no_colon : has_colon e.0 ≡ false
    pub no_fence : str_eq (stripped is_space (entry_line e)) "---" ≡ false

partition_key :
    (key rest : String)
    → has_colon key ≡ false
    → partition (key ⧺ String.◌∷◌ ":" rest) ≡ some (key, rest)
unfolding partition
partition_key String.[] rest h = rw (nil-append (String.◌∷◌ ":" rest)) refl
partition_key (String.◌∷◌ c s) rest h = elim (Bool-cases (code c == b':')) [
  | inl colon ↦ absurd (let q : true ≡ false = rw colon at h in cc)
  | inr other ↦
      let q : has_colon s ≡ false = rw other at h in
      rw (cons-append c s (String.◌∷◌ ":" rest), other, partition_key s rest q) refl
]

module _ (is_space : Char → Bool) (blank : is_space " " ≡ true) where
  value_of :
      (value : String)
      → stripped is_space value ≡ value
      → stripped is_space (String.◌∷◌ " " value) ≡ value
  unfolding left_stripped
  value_of value h = rw blank h

  with_entry-line :
      (meta : Dict String) (e : String × String)
      → IsEntry is_space e
      → with_entry is_space meta (partition (entry_line e)) ≡ insert e.0 e.1 meta
  with_entry-line meta (key, value) h =
      rw
        (
          partition_key key (String.◌∷◌ " " value) h.no_colon,
          h.key_stripped,
          value_of value h.value_stripped,
        )
        refl

  scanned-lines :
      (meta : Dict String) (es : List (String × String)) (body : List String)
      → All (IsEntry is_space) es
      → str_eq (stripped is_space "---") "---" ≡ true
      → scanned is_space meta (map entry_line es ++ ("---" ∷ body))
        ≡ some (updated meta es, joined_by "\n" body)
  unfolding scanned
  scanned-lines meta [] body h fence = rw fence refl
  scanned-lines meta (e ∷ es) body h fence =
      rw (h.0.no_fence, with_entry-line meta e h.0)
        (scanned-lines (insert e.0 e.1 meta) es body h.1 fence)

  -- A file that begins with a fence, a line `key: value` for each entry, and a fence again is read
  -- as a dictionary of these entries, of which a later one replaces an earlier one of its key, and
  -- the lines behind it as the body. Keys and values have no space around them, a key has no colon,
  -- and the blank but no dash is a space.
  pub parse_frontmatter-lines :
      (splitlines : String → List String) (text : String) (es : List (String × String))
      (body : List String)
      → starts_with "---" text ≡ true
      → splitlines text ≡ "---" ∷ (map entry_line es ++ ("---" ∷ body))
      → All (IsEntry is_space) es
      → str_eq (stripped is_space "---") "---" ≡ true
      → parse_frontmatter is_space splitlines text ≡ (updated [] es, joined_by "\n" body)
  unfolding parse_frontmatter
  parse_frontmatter-lines splitlines text es body fenced cut entries fence =
      rw (fenced, cut, scanned-lines [] es body entries fence) refl
