-- ===== src/Memory/Skills.antt =====
-- Skill files (omniai/memory/skills.py). `splitlines` is Python's, and which characters `str.strip`
-- takes away is the parameter `is_space`; a file is its text, with the stem of its name.
pub mod Frontmatter
mod Tests
use na_ai.Base.{
  String, Bool, true, false, Option, none, some, List, [], ◌∷◌, ◌++◌, map, ◌==◌, str_eq,
  if◌then◌else◌,
}
use na_ai.Base.Dict.{Dict, lookup, insert}
use na_ai.Base.Texts.{prefix}
use na_ai.Models.Structured.{left_stripped, right_stripped, stripped, starts_with}
use Prim.Native.Char.{Char, code}
use Prim.Native.String.{◌++◌ as str_append}

pub record Skill : Type 0 where
  pub name : String
  pub description : String
  pub body : String
  pub source : String

-- `line.partition(":")`, less the colon: none where there is no colon.
abbrev pub onto_key : Char → Option (String × String) → Option (String × String)
onto_key c none = none
onto_key c (some (key, value)) = some (String.◌∷◌ c key, value)

unfoldable pub partition : String → Option (String × String)
partition String.[] = none
partition (String.◌∷◌ c s) =
    let rest = partition s in if code c == b':' then some ("", s) else onto_key c rest

-- `sep.join(parts)`
abbrev pub joined_by : String → List String → String
joined_by sep [] = ""
joined_by sep (s ∷ []) = s
joined_by sep (s ∷ (t ∷ ts)) = str_append s (str_append sep (joined_by sep (t ∷ ts)))

abbrev pub or_default : String → Option String → String
or_default s none = s
or_default s (some t) = t

module _ (is_space : Char → Bool) where
  -- `meta[key.strip()] = value.strip()` for a line with a colon.
  abbrev pub with_entry : Dict String → Option (String × String) → Dict String
  with_entry meta none = meta
  with_entry meta (some (key, value)) =
      insert (stripped is_space key) (stripped is_space value) meta

  -- The loop over the lines behind the first: none where the frontmatter is not terminated.
  unfoldable pub scanned : Dict String → List String → Option (Dict String × String)
  unfolding partition
  scanned meta [] = none
  scanned meta (line ∷ lines) =
      let rest = scanned (with_entry meta (partition line)) lines in
      if str_eq (stripped is_space line) "---" then some (meta, joined_by "\n" lines) else rest

  abbrev pub or_whole : String → Option (Dict String × String) → Dict String × String
  or_whole text none = ([], text)
  or_whole text (some r) = r

  -- `lines[1:]`
  abbrev pub behind_first : List String → List String
  behind_first [] = []
  behind_first (l ∷ ls) = ls

  module _ (splitlines : String → List String) where
    -- `_parse_frontmatter`
    unfoldable pub parse_frontmatter : String → Dict String × String
    unfolding scanned prefix
    parse_frontmatter text =
        if starts_with "---" text
        then or_whole text (scanned [] (behind_first (splitlines text)))
        else ([], text)

    -- The skill of a file: `default_name` is the stem of the path without `.skill`.
    unfoldable pub skill_of : String → String → String → Skill
    unfolding parse_frontmatter left_stripped right_stripped
    skill_of source default_name text =
        let (meta, body) = parse_frontmatter text in
        record {
          name = or_default default_name (lookup "name" meta);
          description = or_default "" (lookup "description" meta);
          body = stripped is_space body;
          source = source;
        }

    -- `load_file`: the skills so far, and the new one behind them.
    abbrev pub load_file : String → String → String → List Skill → Skill × List Skill
    load_file source default_name text skills =
        let s = skill_of source default_name text in (s, skills ++ (s ∷ []))

  -- `Skill.render`
  abbrev pub header : Skill → String
  header s =
      if str_eq s.description ""
      then str_append "## Skill: " s.name
      else str_append (str_append "## Skill: " s.name) (str_append "\n" s.description)

  abbrev pub render : Skill → String
  render s = stripped is_space (str_append (header s) (str_append "\n\n" s.body))

  -- `compose_system_prompt`, which `install` sets as the engine's.
  pub compose_system_prompt : String → List Skill → String
  unfolding left_stripped right_stripped
  compose_system_prompt preamble skills = joined_by "\n\n" (preamble ∷ map render skills)
