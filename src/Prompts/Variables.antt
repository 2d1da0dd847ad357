-- ===== src/Prompts/Variables.antt =====
-- What input_variables promises of format_messages, and what becomes of both after partial.
use na_ai.Base.{
  String, ◌≡◌, refl, ap, ◌∙◌, Bool, true, false, Option, none, some, List, [], ◌∷◌, ◌++◌, arith,
}
use na_ai.Base.Dict.{updated, Dict, lookup}
use na_ai.Base.Result.{Result, ok, err, ◌>>=◌, IsOk, ok_of_chain, ok-injective}
use na_ai.Prompts.{
  partial, Arg, raw, bound, ChatPromptTemplate, finished, role_item, placeholder, nested, few_shot,
  unsupported, all_given, slot, demonstrated, content_of, input_variables, format_messages,
}

-- The chain of two steps that return returns.
chain-IsOk :
    {E A B C : Type 0} (step : Result E A) (next : Result E B) (join : A → B → C)
    → IsOk step
    → IsOk next
    → IsOk (step >>= λ a. (next >>= λ b. ok (join a b)))
chain-IsOk (ok a) (ok b) join h k = tt
chain-IsOk (ok a) (err e) join h k = k
chain-IsOk (err e) next join h k = h

given_left :
    (xs ys : List String) (values : Dict Arg)
    → all_given (xs ++ ys) values ≡ true
    → all_given xs values ≡ true
given_left [] ys values h = refl
given_left (x ∷ xs) ys values h = ground (arith, given_left xs ys values)

given_right :
    (xs ys : List String) (values : Dict Arg)
    → all_given (xs ++ ys) values ≡ true
    → all_given ys values ≡ true
given_right [] ys values h = h
given_right (x ∷ xs) ys values h = given_right xs ys values (ground arith)

-- The slots hold messages, the examples have their keys, and no item is of another type.
abbrev pub Holds : ChatPromptTemplate → Dict Arg → Type 0
Holds finished kwargs = Unit
Holds (role_item role t c) kwargs = Holds c kwargs
Holds (placeholder name optional c) kwargs = IsOk (slot true (lookup name kwargs)) × Holds c kwargs
Holds (nested d c) kwargs = Holds d kwargs × Holds c kwargs
Holds (few_shot f c) kwargs = IsOk (demonstrated f f.examples) × Holds c kwargs
Holds (unsupported c) kwargs = ⊥

given_slot :
    (optional : Bool) (a : Option Arg)
    → elim a [ none ↦ false | some v ↦ true ] ≡ true
    → IsOk (slot true a)
    → IsOk (slot optional a)
given_slot optional (some a) h k = k
given_slot optional none h k = absurd (cc)

module _ (fields : String → List String) (fill : String → Dict Arg → Option String) where
  -- A text that `str.format` fills with any values in which each of its fields is given: one whose
  -- fields are plain names, not `{}` or `{n:d}`.
  abbrev pub IsPlain : String → Type 0
  IsPlain s =
      (values : Dict Arg)
      → all_given (fields s) values ≡ true
      → (t : String) × (fill s values ≡ some t)

  -- So is every text of the chat's roles.
  abbrev pub HasPlainTexts : ChatPromptTemplate → Type 0
  HasPlainTexts finished = Unit
  HasPlainTexts (role_item role (raw s) c) = IsPlain s × HasPlainTexts c
  HasPlainTexts (role_item role (bound t p) c) = HasPlainTexts c
  HasPlainTexts (placeholder name optional c) = HasPlainTexts c
  HasPlainTexts (nested d c) = HasPlainTexts d × HasPlainTexts c
  HasPlainTexts (few_shot f c) = HasPlainTexts c
  HasPlainTexts (unsupported c) = HasPlainTexts c

  raw-IsOk :
      (s : String) (kwargs : Dict Arg)
      → IsPlain s
      → all_given (fields s) kwargs ≡ true
      → IsOk (content_of fields fill (raw s) kwargs)
  raw-IsOk s kwargs fills h = let (t, e) = fills kwargs h in rw (h, e) tt

  -- A chat template all of whose input variables are given is formatted without an error, if the
  -- fields of its roles' texts are plain names, its slots are given messages, its examples have
  -- their keys and no item is of an unknown type.
  pub format_messages-given :
      (c : ChatPromptTemplate) (kwargs : Dict Arg) (variables : List String)
      → HasPlainTexts c
      → Holds c kwargs
      → input_variables fields fill c ≡ ok variables
      → all_given variables kwargs ≡ true
      → IsOk (format_messages fields fill c kwargs)
  unfolding input_variables format_messages
  format_messages-given finished kwargs variables fills holds e h = tt
  format_messages-given (role_item role (raw s) c) kwargs variables fills holds e h =
      let (rest, q, inner) = ok_of_chain (input_variables fields fill c) _ e in
      let split : all_given (fields s ++ rest) kwargs ≡ true =
        ap (λ l. all_given l kwargs) (ok-injective q) ∙ h in
      chain-IsOk (content_of fields fill (raw s) kwargs) (format_messages fields fill c kwargs) _
        (raw-IsOk s kwargs fills.0 (given_left (fields s) rest kwargs split))
        (format_messages-given c kwargs rest fills.1 holds inner
          (given_right (fields s) rest kwargs split))
  format_messages-given (role_item role (bound t p) c) kwargs variables fills holds e h =
      absurd (cc)
  format_messages-given (placeholder name optional c) kwargs variables fills holds e h =
      let (rest, q, inner) = ok_of_chain (input_variables fields fill c) _ e in
      let split : all_given (name ∷ rest) kwargs ≡ true =
        ap (λ l. all_given l kwargs) (ok-injective q) ∙ h in
      chain-IsOk (slot optional (lookup name kwargs)) (format_messages fields fill c kwargs) _
        (given_slot optional (lookup name kwargs) (ground arith) holds.0)
        (format_messages-given c kwargs rest fills holds.1 inner (ground arith))
  format_messages-given (nested d c) kwargs variables fills holds e h =
      let (first, more, outer) = ok_of_chain (input_variables fields fill d) _ e in
      let (rest, q, inner) = ok_of_chain (input_variables fields fill c) _ more in
      let split : all_given (first ++ rest) kwargs ≡ true =
        ap (λ l. all_given l kwargs) (ok-injective q) ∙ h in
      chain-IsOk (format_messages fields fill d kwargs) (format_messages fields fill c kwargs) _
        (format_messages-given d kwargs first fills.0 holds.0 outer
          (given_left first rest kwargs split))
        (format_messages-given c kwargs rest fills.1 holds.1 inner
          (given_right first rest kwargs split))
  format_messages-given (few_shot f c) kwargs variables fills holds e h =
      chain-IsOk (demonstrated f f.examples) (format_messages fields fill c kwargs) _ holds.0
        (format_messages-given c kwargs variables fills holds.1 e h)
  format_messages-given (unsupported c) kwargs variables fills holds e h = absurd holds

abbrev pub has_role : ChatPromptTemplate → Bool
has_role finished = false
has_role (role_item role t c) = true
has_role (placeholder name optional c) = has_role c
has_role (nested d c) = has_role c
has_role (few_shot f c) = has_role c
has_role (unsupported c) = has_role c

-- A chain with a step that raises does not return.
chain_fails :
    {E A B C : Type 0} (step : Result E A) (next : Result E B) (join : A → B → C)
    → ¬ IsOk next
    → ¬ IsOk (step >>= λ a. (next >>= λ b. ok (join a b)))
chain_fails (ok a) (ok b) join h k = h tt
chain_fails (ok a) (err e) join h k = k
chain_fails (err e) next join h k = k

one_fails :
    {E B C : Type 0} (next : Result E B) (join : B → C)
    → ¬ IsOk next
    → ¬ IsOk (next >>= λ b. ok (join b))
one_fails (ok b) join h k = h tt
one_fails (err e) join h k = k

module _ (fields : String → List String) (fill : String → Dict Arg → Option String) where
  input_variables_fail :
      (c : ChatPromptTemplate) (a : Dict Arg)
      → has_role c ≡ true
      → ¬ IsOk (input_variables fields fill (partial a c))
  unfolding input_variables partial
  input_variables_fail finished a h = absurd (cc)
  input_variables_fail (role_item role t c) a h = λ k. k
  input_variables_fail (placeholder name optional c) a h =
      one_fails (input_variables fields fill (partial a c)) _ (input_variables_fail c a h)
  input_variables_fail (nested d c) a h =
      chain_fails (input_variables fields fill d) (input_variables fields fill (partial a c)) _
        (input_variables_fail c a h)
  input_variables_fail (few_shot f c) a h = input_variables_fail c a h
  input_variables_fail (unsupported c) a h = input_variables_fail c a h

  format_messages_fail :
      (c : ChatPromptTemplate) (a b kwargs : Dict Arg)
      → has_role c ≡ true
      → ¬ IsOk (format_messages fields fill (partial b (partial a c)) kwargs)
  unfolding format_messages partial
  format_messages_fail finished a b kwargs h = absurd (cc)
  format_messages_fail (role_item role t c) a b kwargs h = λ k. k
  format_messages_fail (placeholder name optional c) a b kwargs h =
      chain_fails (slot optional (lookup name kwargs))
        (format_messages fields fill (partial b (partial a c)) kwargs) _
        (format_messages_fail c a b kwargs h)
  format_messages_fail (nested d c) a b kwargs h =
      chain_fails (format_messages fields fill d kwargs)
        (format_messages fields fill (partial b (partial a c)) kwargs) _
        (format_messages_fail c a b kwargs h)
  format_messages_fail (few_shot f c) a b kwargs h =
      chain_fails (demonstrated f f.examples)
        (format_messages fields fill (partial b (partial a c)) kwargs) _
        (format_messages_fail c a b kwargs h)
  format_messages_fail (unsupported c) a b kwargs h = λ k. k

  -- A chat template with a role is broken by `partial`: its input variables can no longer be asked
  -- for, and after a second `partial` it cannot be formatted, whatever is given.
  pub partial_breaks :
      (c : ChatPromptTemplate) (a b kwargs : Dict Arg)
      → has_role c ≡ true
      → (¬ IsOk (input_variables fields fill (partial a c)))
        × (¬ IsOk (format_messages fields fill (partial b (partial a c)) kwargs))
  partial_breaks c a b kwargs h = (input_variables_fail c a h, format_messages_fail c a b kwargs h)

  -- What a chat of roles' texts alone is formatted with.
  abbrev pub IsTexts : ChatPromptTemplate → Type 0
  IsTexts finished = Unit
  IsTexts (role_item role (raw s) c) = IsTexts c
  IsTexts _ = ⊥

  -- A chat of roles' texts to which some variables were bound by one `partial` is formatted as the
  -- chat itself is with all the variables, of which those given last count.
  pub format_messages-partial :
      (c : ChatPromptTemplate) (a kwargs : Dict Arg)
      → IsTexts c
      → format_messages fields fill (partial a c) kwargs
        ≡ format_messages fields fill c (updated a kwargs)
  unfolding format_messages partial
  format_messages-partial finished a kwargs h = refl
  format_messages-partial (role_item role (raw s) c) a kwargs h =
      rw (format_messages-partial c a kwargs h) refl
  format_messages-partial (role_item role (bound t p) c) a kwargs h = absurd h
  format_messages-partial (placeholder name optional c) a kwargs h = absurd h
  format_messages-partial (nested d c) a kwargs h = absurd h
  format_messages-partial (few_shot f c) a kwargs h = absurd h
  format_messages-partial (unsupported c) a kwargs h = absurd h
