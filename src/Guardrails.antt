-- ===== src/Guardrails.antt =====
-- The guardrails of omniai/guardrails/middleware.py. A compiled pattern is what it does with a text:
-- whether it is found there, and the pieces, matched or not, into which it cuts the text.
pub mod Luhn
pub mod Screening
mod Tests
use na_ai.Base.{
  ℕ, ◌+◌, String, Bool, true, false, ◌&&◌, Option, none, some, List, [], ◌∷◌, ◌++◌, str_eq, ltb,
  if◌then◌else◌,
}
use na_ai.Base.Dict.{Dict, insert}
use na_ai.Base.Result.{Result, ok, err}
use na_ai.Protocol.{OmniMessage, texts}
use na_ai.Guardrails.Luhn.{luhn_valid}
use na_ai.Gateway.Router.{Failure, guardrail}
use Prim.Native.String.{◌++◌ as str_append}

-- A part of a text that a pattern leaves alone, or one that it matches.
pub data Piece : Type 0 where
  plain : String → Piece
  matched : String → Piece

pub record Regex : Type 0 where
  pub search : String → Bool
  pub pieces : String → List Piece

pub record GuardrailPolicy : Type 0 where
  pub injection : Dict Regex
  pub pii : Dict Regex
  pub block_on_injection : Bool
  pub redaction : String → String

pub record GuardrailResult : Type 0 where
  pub blocked : Bool
  pub sanitized : String
  pub injection_hits : List String
  pub pii_hits : List String

abbrev pub hits : String → Dict Regex → List String
hits text [] = []
hits text ((name, rx) ∷ d) = let rest = hits text d in if rx.search text then name ∷ rest else rest

-- `rx.sub` with a function of the match: the new text, and how many matches it accepted.
abbrev pub replaced : (String → Bool) → String → List Piece → String × ℕ
replaced accepts by [] = ("", 0)
replaced accepts by (plain s ∷ ps) =
    let (rest, n) = replaced accepts by ps in (str_append s rest, n)
replaced accepts by (matched s ∷ ps) =
    let (rest, n) = replaced accepts by ps in
    if accepts s then (str_append by rest, n + 1) else (str_append s rest, n)

-- Only card numbers are checked before they are redacted.
abbrev pub accepts_as : String → String → Bool
accepts_as name s = if str_eq name "credit_card" then luhn_valid s else true

abbrev pub is_positive : ℕ → Bool
is_positive n = ltb 0 n

-- The loop over the PII patterns: the text so far, and the names that were found.
pub redacted : (String → String) → Dict Regex → String → List String → String × List String
redacted redaction [] text found = (text, found)
redacted redaction ((name, rx) ∷ d) text found =
    let (text', n) = replaced (accepts_as name) (redaction name) (rx.pieces text) in
    redacted redaction d text' (if is_positive n then found ++ (name ∷ []) else found)

abbrev pub is_some : List String → Bool
is_some [] = false
is_some (x ∷ xs) = true

-- `PromptGuard.check`
unfoldable pub check : GuardrailPolicy → String → GuardrailResult
unfolding redacted
check p text =
    let (sanitized, found) = redacted p.redaction p.pii text [] in
    record {
      blocked = is_some (hits text p.injection) && p.block_on_injection;
      sanitized = sanitized;
      injection_hits = hits text p.injection;
      pii_hits = found;
    }

-- `", ".join(hits)`
abbrev pub listed : List String → String
listed [] = ""
listed (x ∷ []) = x
listed (x ∷ (y ∷ ys)) = str_append x (str_append ", " (listed (y ∷ ys)))

abbrev pub marked : GuardrailResult → OmniMessage → OmniMessage
marked r m =
    if is_some r.pii_hits
    then record m {
      content = r.sanitized;
      metadata = insert "pii_redacted" (texts r.pii_hits) m.metadata;
    }
    else m

abbrev pub guarded : GuardrailResult → OmniMessage → Result Failure OmniMessage
guarded r m =
    if r.blocked
    then err (guardrail (str_append "prompt rejected by guardrails: " (listed r.injection_hits)))
    else ok (marked r m)

-- `PromptGuard.__call__`, as an interceptor of the router.
unfoldable pub prompt_guard :
    {W : Type 0} → GuardrailPolicy → OmniMessage → W → Result Failure OmniMessage × W
prompt_guard p m w = (guarded (check p m.content) m, w)
