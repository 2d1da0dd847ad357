-- ===== src/Prompts.antt =====
-- The prompt templates of omniai/prompts.py. What `string.Formatter` finds in a template and
-- `str.format` makes of it are the parameters `fields` and `fill`; `fill` fails for a field that the
-- values cannot fill.
pub mod Variables
mod Tests
use na_ai.Base.{
  String, Bool, true, false, ◌&&◌, not, Option, none, some, List, [], ◌∷◌, ◌++◌, map, str_eq,
  filter, if◌then◌else◌,
}
use na_ai.Base.Dict.{Dict, lookup, contains, updated}
use na_ai.Base.Result.{Result, ok, err, ◌>>=◌, ◌>>◌, raise_if}
use na_ai.Protocol.{OmniMessage}
use na_ai.Models.Wire.{WireMessage, omni_to_openai}

-- What a placeholder's list may hold, and what a variable may be given.
pub data PlaceholderItem : Type 0 where
  omni : OmniMessage → PlaceholderItem
  wire : WireMessage → PlaceholderItem
  other_item : PlaceholderItem

pub data Arg : Type 0 where
  text : String → Arg
  items : List PlaceholderItem → Arg
  not_iterable : Arg

-- What is sent: a turn of a role's template, or a message of a placeholder.
pub data Rendered : Type 0 where
  turn : String → String → Rendered
  message : WireMessage → Rendered

pub data PromptError : Type 0 where
  missing_variables missing_placeholder type_error key_error format_error : PromptError

-- The template of a role: a text, or a `PromptTemplate` over one with its partial variables.
pub data Template : Type 0 where
  raw : String → Template
  bound : Template → Dict Arg → Template

pub record FewShot : Type 0 where
  pub examples : List (Dict String)
  pub input_key : String
  pub output_key : String

-- The items of a `ChatPromptTemplate` in their order.
pub data ChatPromptTemplate : Type 0 where
  finished : ChatPromptTemplate
  role_item : String → Template → ChatPromptTemplate → ChatPromptTemplate
  placeholder : String → Bool → ChatPromptTemplate → ChatPromptTemplate
  nested : ChatPromptTemplate → ChatPromptTemplate → ChatPromptTemplate
  few_shot : FewShot → ChatPromptTemplate → ChatPromptTemplate
  unsupported : ChatPromptTemplate → ChatPromptTemplate

abbrev pub all_given : List String → Dict Arg → Bool
all_given [] values = true
all_given (v ∷ vs) values = contains v values && all_given vs values

-- `_normalize_messages`
abbrev pub normalized : List PlaceholderItem → Result PromptError (List Rendered)
normalized [] = ok []
normalized (omni m ∷ xs) = do
  rest ← normalized xs
  ok (map (λ x. message x) (omni_to_openai (m ∷ [])) ++ rest)
normalized (wire m ∷ xs) = do rest ← normalized xs; ok (message m ∷ rest)
normalized (other_item ∷ xs) = err type_error

abbrev pub messages_in : Arg → Result PromptError (List Rendered)
messages_in (items xs) = normalized xs
messages_in _ = err type_error

-- A slot that is not given is left out where it is optional.
abbrev pub slot : Bool → Option Arg → Result PromptError (List Rendered)
slot optional (some a) = messages_in a
slot true none = ok []
slot false none = err missing_placeholder

abbrev pub example_text : Option String → Result PromptError String
example_text none = err key_error
example_text (some s) = ok s

-- `FewShotChatPromptTemplate.format_messages`
abbrev pub demonstrated : FewShot → List (Dict String) → Result PromptError (List Rendered)
demonstrated f [] = ok []
demonstrated f (e ∷ es) = do
  input ← example_text (lookup f.input_key e)
  output ← example_text (lookup f.output_key e)
  rest ← demonstrated f es
  ok (turn "user" input ∷ turn "assistant" output ∷ rest)

-- `ChatPromptTemplate.partial`
unfoldable pub partial : Dict Arg → ChatPromptTemplate → ChatPromptTemplate
partial kwargs finished = finished
partial kwargs (role_item role t c) = role_item role (bound t kwargs) (partial kwargs c)
partial kwargs (placeholder name optional c) = placeholder name optional (partial kwargs c)
partial kwargs (nested d c) = nested d (partial kwargs c)
partial kwargs (few_shot f c) = few_shot f (partial kwargs c)
partial kwargs (unsupported c) = unsupported (partial kwargs c)

module _ (fields : String → List String) (fill : String → Dict Arg → Option String) where
  -- `_variables_of`, which fails for what is not a text.
  abbrev pub variables_of : Template → Result PromptError (List String)
  variables_of (raw s) = ok (fields s)
  variables_of (bound t p) = err type_error

  abbrev pub or_format_error : Option String → Result PromptError String
  or_format_error none = err format_error
  or_format_error (some s) = ok s

  abbrev pub filled : Template → Dict Arg → Result PromptError String
  filled (raw s) values = or_format_error (fill s values)
  filled (bound t p) values = err type_error

  -- The check for missing variables, and the text.
  abbrev pub checked : Template → Dict Arg → Result PromptError String
  checked t values = do
    variables ← variables_of t
    raise_if (not (all_given variables values)) missing_variables
    filled t values

  -- The content of a role: `PromptTemplate.format` of a bound template.
  abbrev pub content_of : Template → Dict Arg → Result PromptError String
  content_of (raw s) kwargs = checked (raw s) kwargs
  content_of (bound t p) kwargs = checked t (updated p kwargs)

  -- `PromptTemplate.input_variables` of the template `t` with the partial variables `p`.
  pub template_variables : Template → Dict Arg → Result PromptError (List String)
  template_variables t p = do
    variables ← variables_of t
    ok (filter (λ v. not (contains v p)) variables)

  -- `ChatPromptTemplate.input_variables`
  unfoldable pub input_variables : ChatPromptTemplate → Result PromptError (List String)
  input_variables finished = ok []
  input_variables (role_item role t c) = do
    variables ← variables_of t
    rest ← input_variables c
    ok (variables ++ rest)
  input_variables (placeholder name optional c) = do rest ← input_variables c; ok (name ∷ rest)
  input_variables (nested d c) = do
    variables ← input_variables d
    rest ← input_variables c
    ok (variables ++ rest)
  input_variables (few_shot f c) = input_variables c
  input_variables (unsupported c) = input_variables c

  -- `ChatPromptTemplate.format_messages`
  unfoldable pub format_messages :
      ChatPromptTemplate → Dict Arg → Result PromptError (List Rendered)
  format_messages finished kwargs = ok []
  format_messages (role_item role t c) kwargs = do
    content ← content_of t kwargs
    rest ← format_messages c kwargs
    ok (turn role content ∷ rest)
  format_messages (placeholder name optional c) kwargs = do
    given ← slot optional (lookup name kwargs)
    rest ← format_messages c kwargs
    ok (given ++ rest)
  format_messages (nested d c) kwargs = do
    inner ← format_messages d kwargs
    rest ← format_messages c kwargs
    ok (inner ++ rest)
  format_messages (few_shot f c) kwargs = do
    examples ← demonstrated f f.examples
    rest ← format_messages c kwargs
    ok (examples ++ rest)
  format_messages (unsupported c) kwargs = err type_error
