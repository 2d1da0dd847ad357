-- ===== src/Guardrails/Screening.antt =====
-- What the guard leaves alone and what it stops (PromptGuard.check, PromptGuard.__call__).
use na_ai.Base.{
  ◌+◌, String, ◌≡◌, refl, sym, ap, ◌∙◌, inl, inr, Bool, true, false, List, [], ◌∷◌, ◌++◌, arith,
  if◌then◌else◌, Bool-cases, All,
}
use na_ai.Base.Dict.{Dict, values}
use na_ai.Base.Result.{err}
use na_ai.Protocol.{OmniMessage}
use na_ai.Gateway.Router.{guardrail, Interceptor, Observer, intercepted, dispatch}
use na_ai.Guardrails.{
  Piece, plain, matched, Regex, GuardrailPolicy, GuardrailResult, replaced, accepts_as, is_positive,
  redacted, is_some, check, listed, marked, prompt_guard,
}
use Prim.Native.String.{◌++◌ as str_append}

-- The text that some pieces make up.
abbrev pub whole : List Piece → String
whole [] = ""
whole (plain s ∷ ps) = str_append s (whole ps)
whole (matched s ∷ ps) = str_append s (whole ps)

-- `re` cuts a text into pieces that make it up.
abbrev pub Cuts : Regex → Type 0
Cuts rx = (text : String) → whole (rx.pieces text) ≡ text

replaced-none :
    (accepts : String → Bool) (by : String) (ps : List Piece)
    → (replaced accepts by ps).1 ≡ 0
    → (replaced accepts by ps).0 ≡ whole ps
replaced-none accepts by [] h = refl
replaced-none accepts by (plain s ∷ ps) h = ap (str_append s) (replaced-none accepts by ps h)
replaced-none accepts by (matched s ∷ ps) h = elim (Bool-cases (accepts s)) [
  | inl yes_match ↦
      absurd (let q : (replaced accepts by ps).1 + 1 ≡ 0 = rw yes_match at h in omega arith)
  | inr not_match ↦
      let q : (replaced accepts by ps).1 ≡ 0 = rw not_match at h in
      rw not_match (ap (str_append s) (replaced-none accepts by ps q))
]

is_some-grown :
    (b : Bool) (found : List String) (name : String)
    → is_some found ≡ true
    → is_some (if b then found ++ (name ∷ []) else found) ≡ true
is_some-grown true [] name h = refl
is_some-grown true (x ∷ found) name h = refl
is_some-grown false found name h = h

-- Names that were found stay found.
redacted-keeps :
    (redaction : String → String) (d : Dict Regex) (text : String) (found : List String)
    → is_some found ≡ true
    → is_some (redacted redaction d text found).1 ≡ true
unfolding redacted
redacted-keeps redaction [] text found h = h
redacted-keeps redaction ((name, rx) ∷ d) text found h =
    redacted-keeps redaction d (replaced (accepts_as name) (redaction name) (rx.pieces text)).0 _ (
      is_some-grown (is_positive (replaced (accepts_as name) (redaction name) (rx.pieces text)).1)
        found name h)

redacted_step :
    (redaction : String → String) (d : Dict Regex) (name text text' : String) (b : Bool)
    → (b ≡ false
        → is_some (redacted redaction d text' []).1 ≡ false
        → (redacted redaction d text' []).0 ≡ text)
    → is_some (redacted redaction d text' (if b then name ∷ [] else [])).1 ≡ false
    → (redacted redaction d text' (if b then name ∷ [] else [])).0 ≡ text
redacted_step redaction d name text text' true ih h =
    absurd
      (let q : true ≡ false = sym (redacted-keeps redaction d text' (name ∷ []) refl) ∙ h in cc)
redacted_step redaction d name text text' false ih h = ih refl h

redacted-unchanged :
    (redaction : String → String) (d : Dict Regex) (text : String)
    → All Cuts (values d)
    → is_some (redacted redaction d text []).1 ≡ false
    → (redacted redaction d text []).0 ≡ text
unfolding redacted
redacted-unchanged redaction [] text cuts h = refl
redacted-unchanged redaction ((name, rx) ∷ d) text cuts h =
    let r = replaced (accepts_as name) (redaction name) (rx.pieces text) in
    redacted_step redaction d name text r.0 (is_positive r.1)
      (λ no_match q.
        redacted-unchanged redaction d r.0 cuts.1 q
        ∙ replaced-none (accepts_as name) (redaction name) (rx.pieces text) (ground arith)
        ∙ cuts.0 text)
      h

-- A check that reports no personal data has left the text as it was, whatever the patterns match:
-- card numbers without a valid checksum are put back unchanged.
pub check-unchanged :
    (p : GuardrailPolicy) (text : String)
    → All Cuts (values p.pii)
    → (check p text).pii_hits ≡ []
    → (check p text).sanitized ≡ text
unfolding check
check-unchanged p text cuts h = redacted-unchanged p.redaction p.pii text cuts (ap is_some h)

abbrev pub reason_of : GuardrailResult → String
reason_of r = str_append "prompt rejected by guardrails: " (listed r.injection_hits)

-- A guard in front of the other interceptors: a message that it blocks is refused with the names of
-- its patterns, and neither the other interceptors nor the observers nor the handler run; any other
-- message takes the way that it takes without the guard, with its personal data redacted.
pub dispatch-prompt_guard :
    {W : Type 0} (p : GuardrailPolicy) (is : List (Interceptor W)) (os : List (Observer W))
    (handler : Interceptor W) (m : OmniMessage) (w : W)
    → ((check p m.content).blocked ≡ true
        → dispatch (prompt_guard p ∷ is) os handler m w
          ≡ (err (guardrail (reason_of (check p m.content))), w))
      × ((check p m.content).blocked ≡ false
          → dispatch (prompt_guard p ∷ is) os handler m w
            ≡ dispatch is os handler (marked (check p m.content) m) w)
unfolding dispatch intercepted prompt_guard
dispatch-prompt_guard p is os handler m w = (λ blocked. rw blocked refl, λ passes. rw passes refl)
