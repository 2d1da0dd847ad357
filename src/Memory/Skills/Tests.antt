-- ===== src/Memory/Skills/Tests.antt =====
-- Skill files, at one with two entries.
use na_ai.Base.{
  String, ◌≡◌, refl, Bool, true, ◌||◌, List, [], ◌∷◌, ◌==◌, str_eq, if◌then◌else◌, All,
}
use na_ai.Base.Texts.{prefix}
use na_ai.Base.Dict.{updated}
use na_ai.Models.Structured.{left_stripped, right_stripped, stripped, starts_with}
use na_ai.Memory.Skills.{parse_frontmatter, skill_of, render}
use na_ai.Memory.Skills.Frontmatter.{IsEntry, parse_frontmatter-lines}
use Prim.Native.Char.{Char, code}

abbrev is_blank : Char → Bool
is_blank c = (code c == 32) || (code c == b'\n')

abbrev onto_line : Char → List String → List String
onto_line c [] = String.◌∷◌ c "" ∷ []
onto_line c (l ∷ ls) = String.◌∷◌ c l ∷ ls

-- The lines of a text whose only line break is the newline.
abbrev lines_of : String → List String
lines_of String.[] = []
lines_of (String.◌∷◌ c s) =
    let rest = lines_of s in if code c == b'\n' then "" ∷ rest else onto_line c rest

abbrev file : String
file = "---\nname: sql\ndescription: joins: inner\n---\nUse joins."

abbrev entries : List (String × String)
entries = ("name", "sql") ∷ ("description", "joins: inner") ∷ []

entries_written : All (IsEntry is_blank) entries
unfolding left_stripped right_stripped
entries_written = (
  record { key_stripped = refl; value_stripped = refl; no_colon = refl; no_fence = refl },
  (record { key_stripped = refl; value_stripped = refl; no_colon = refl; no_fence = refl }, tt),
)

begins : starts_with "---" file ≡ true
unfolding prefix
begins = refl

no_space : str_eq (stripped is_blank "---") "---" ≡ true
unfolding left_stripped right_stripped
no_space = refl

parse_frontmatter-lines_example :
    parse_frontmatter is_blank lines_of file ≡ (updated [] entries, "Use joins.")
parse_frontmatter-lines_example =
    parse_frontmatter-lines is_blank refl lines_of file entries ("Use joins." ∷ []) begins refl
      entries_written no_space

rendered :
    render is_blank (skill_of is_blank lines_of "a.skill.md" "a" file)
    ≡ "## Skill: sql\njoins: inner\n\nUse joins."
unfolding skill_of left_stripped right_stripped
rendered = refl

unterminated : parse_frontmatter is_blank lines_of "---\nname: sql" ≡ ([], "---\nname: sql")
unfolding parse_frontmatter left_stripped right_stripped
unterminated = refl
