-- ===== src/Gateway/Security.antt =====
-- The middleware of omniai/gateway/security.py. A scope's bytes are the texts that they decode to.
-- Of Python's library, `str.lower`, `parse_qs` and `int` are the fields of a record.
pub mod Admission
mod Tests
use na_ai.Base.{
  ℕ, String, Bool, true, false, ◌&&◌, ◌||◌, not, Option, none, some, List, [], ◌∷◌, str_eq, ltb,
  if◌then◌else◌, truthy,
}
use na_ai.Base.Dict.{Dict, lookup, insert}
use na_ai.Base.Result.{Result, ok, err}
use na_ai.Gateway.RateLimit.{TokenBucketRateLimiter, allow}
use Prim.Native.Char.{Char, code}
use Prim.Native.String.{[] as ε, ◌∷◌ as ◌▹◌}

pub record Python : Type 0 where
  pub lower : String → String
  pub parse_qs : String → Dict (List String)
  pub int_of : String → Option ℕ

pub data Kind : Type 0 where
  http websocket lifespan : Kind

pub record Scope : Type 0 where
  pub kind : Kind
  pub path : String
  pub headers : Dict String
  pub query_string : String

-- What the middleware reads of `OmniSettings`.
pub record Settings : Type 0 where
  pub auth_enabled : Bool
  pub api_keys : List String
  pub max_body_bytes : ℕ

-- The ways a request ends: passed on to the application, one of the three refusals, or the
-- `TypeError` of `compare_digest`. A refusal for the rate keeps the parts that are missing.
pub data Verdict : Type 0 where
  passed unauthorized : Verdict
  rate_limited : ℕ → Verdict
  payload_too_large type_error : Verdict

pub data TypeError : Type 0 where
  not_ascii : TypeError

abbrev pub is_ascii : String → Bool
is_ascii ε = true
is_ascii (c ▹ s) = ltb (code c) 128 && is_ascii s

-- `secrets.compare_digest` on texts raises `TypeError` unless both are ASCII.
abbrev pub compare_digest : String → String → Result TypeError Bool
compare_digest a b = if is_ascii a && is_ascii b then ok (str_eq a b) else err not_ascii

-- `any(...)` stops at the first match.
abbrev pub or_rest : Result TypeError Bool → Result TypeError Bool → Result TypeError Bool
or_rest (ok true) rest = ok true
or_rest (ok false) rest = rest
or_rest (err x) rest = err x

abbrev pub any_equal : String → List String → Result TypeError Bool
any_equal c [] = ok false
any_equal c (k ∷ ks) = or_rest (compare_digest c k) (any_equal c ks)

pub key_valid : Option String → List String → Result TypeError Bool
key_valid none keys = ok false
key_valid (some c) keys = if str_eq c "" then ok false else any_equal c keys

abbrev pub is_exempt : String → Bool
is_exempt p =
    str_eq p "/health"
    || (str_eq p "/health/live" || (str_eq p "/health/ready" || str_eq p "/metrics"))

-- `api_key or "anonymous"`
abbrev pub or_anonymous : Option String → String
or_anonymous none = "anonymous"
or_anonymous (some k) = if str_eq k "" then "anonymous" else k

abbrev pub first : List String → Option String
first [] = none
first (v ∷ vs) = some v

abbrev pub values_of : Option (List String) → List String
values_of none = []
values_of (some vs) = vs

abbrev pub too_long : Option ℕ → ℕ → Bool
too_long none most = false
too_long (some n) most = ltb most n

-- `scope["type"] in ("http", "websocket")`
abbrev pub is_guarded : Kind → Bool
is_guarded lifespan = false
is_guarded _ = true

module _ (py : Python) where
  abbrev pub lowered : Dict String → Dict String → Dict String
  lowered [] d = d
  lowered ((k, v) ∷ hs) d = lowered hs (insert (py.lower k) v d)

  abbrev pub query_key : Scope → Kind → Option String
  query_key s websocket = first (values_of (lookup "api_key" (py.parse_qs s.query_string)))
  query_key s _ = none

  -- `_extract_key`
  pub extract_key : Scope → Option String
  extract_key s =
      let header = lookup "x-api-key" (lowered s.headers []) in
      if truthy header then header else query_key s s.kind

  -- `_content_length`; a negative length, which exceeds no limit, is none.
  abbrev pub content_length : Dict String → Option ℕ
  content_length [] = none
  content_length ((k, v) ∷ hs) =
      let rest = content_length hs in
      if str_eq (py.lower k) "content-length" then py.int_of v else rest

  -- The length test, for a request over HTTP.
  abbrev pub sized : Settings → Scope → Kind → Verdict
  sized c s http =
      if too_long (content_length s.headers) c.max_body_bytes then payload_too_large else passed
  sized c s _ = passed

  abbrev pub after_allow :
      Settings → Scope → Option ℕ × TokenBucketRateLimiter → Verdict × TokenBucketRateLimiter
  after_allow c s (none, l) = (sized c s s.kind, l)
  after_allow c s (some d, l) = (rate_limited d, l)

  abbrev pub limited :
      Settings → Scope → ℕ → TokenBucketRateLimiter → Verdict × TokenBucketRateLimiter
  limited c s now l = after_allow c s (allow (or_anonymous (extract_key s)) now l)

  abbrev pub after_auth :
      Settings
      → Scope
      → ℕ
      → TokenBucketRateLimiter
      → Result TypeError Bool
      → Verdict × TokenBucketRateLimiter
  after_auth c s now l (ok true) = limited c s now l
  after_auth c s now l (ok false) = (unauthorized, l)
  after_auth c s now l (err x) = (type_error, l)

  -- A request that is neither of another protocol nor to an exempt path.
  abbrev pub guard :
      Settings → Scope → ℕ → TokenBucketRateLimiter → Verdict × TokenBucketRateLimiter
  guard c s now l =
      after_auth c s now l
        (if c.auth_enabled then key_valid (extract_key s) c.api_keys else ok true)

  -- `__call__`
  pub admit : Settings → Scope → ℕ → TokenBucketRateLimiter → Verdict × TokenBucketRateLimiter
  admit c s now l =
      if is_guarded s.kind && not (is_exempt s.path) then guard c s now l else (passed, l)
