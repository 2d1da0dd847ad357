-- ===== src/Gateway/Security/Admission.antt =====
-- Which requests reach the application (SecurityMiddleware.__call__).
use na_ai.Base.{
  ℕ, String, ◌≡◌, refl, ◌⊎◌, inl, inr, Bool, true, false, ◌&&◌, Option, none, some, List, [], ◌∷◌,
  arith, str_eq, eq_iff, Bool-cases, All,
}
use na_ai.Base.Result.{Result, ok, err}
use na_ai.Gateway.RateLimit.{TokenBucketRateLimiter, allow}
use na_ai.Gateway.Security.{
  Python, Kind, http, Scope, Settings, passed, unauthorized, TypeError, is_ascii, any_equal,
  key_valid, is_exempt, or_anonymous, too_long, extract_key, content_length, sized, after_allow,
  limited, after_auth, guard, is_guarded, admit,
}

-- A configured key that equals the candidate.
abbrev pub IsListed : String → List String → Type 0
IsListed c [] = ⊥
IsListed c (k ∷ ks) = (c ≡ k) ⊎ IsListed c ks

any_equal-IsListed : (c : String) (ks : List String) → any_equal c ks ≡ ok true → IsListed c ks
any_equal-IsListed c [] h = absurd (cc)
any_equal-IsListed c (k ∷ ks) h = elim (Bool-cases (is_ascii c && is_ascii k)) [
  | inl ascii ↦ elim (Bool-cases (str_eq c k)) [
    | inl same ↦ inl ((eq_iff c k).0 same)
    | inr other ↦ inr (any_equal-IsListed c ks (rw (ascii, other) at h))
  ]
  | inr foreign ↦ absurd (ground (arith, foreign))
]

-- What the application is promised of a request: the key that it carries is configured and has a
-- token to spend, and its stated length fits.
pub record IsAdmitted (py : Python) (c : Settings) (s : Scope) (now : ℕ)
    (l : TokenBucketRateLimiter) : Type 0 where
  pub key : String
  pub carried : extract_key py s ≡ some key
  pub not_empty : str_eq key "" ≡ false
  pub listed : IsListed key c.api_keys
  pub in_budget : (allow key now l).0 ≡ none
  pub fits : s.kind ≡ http → too_long (content_length py s.headers) c.max_body_bytes ≡ false

key_valid-true :
    (o : Option String) (ks : List String)
    → key_valid o ks ≡ ok true
    → (k : String) × (o ≡ some k) × (str_eq k "" ≡ false) × IsListed k ks
unfolding key_valid
key_valid-true none ks h = absurd (cc)
key_valid-true (some c) ks h = elim (Bool-cases (str_eq c "")) [
  | inl empty ↦ absurd (ground (arith, empty))
  | inr more ↦ (c, refl, more, any_equal-IsListed c ks (rw more at h))
]

-- A text that may be compared with the keys and differs from each.
abbrev pub IsForeign : String → List String → Type 0
IsForeign k ks = (is_ascii k ≡ true) × All (λ j. (is_ascii j ≡ true) × (str_eq k j ≡ false)) ks

any_equal-IsForeign : (k : String) (ks : List String) → IsForeign k ks → any_equal k ks ≡ ok false
any_equal-IsForeign k [] h = refl
any_equal-IsForeign k (j ∷ ks) (a, ((b, d), rest)) =
    rw (a, b, d) (any_equal-IsForeign k ks (a, rest))

key_valid-IsForeign :
    (k : String) (ks : List String) → IsForeign k ks → key_valid (some k) ks ≡ ok false
unfolding key_valid
key_valid-IsForeign k ks h = ground (arith, any_equal-IsForeign k ks h)

module _ (py : Python) where
  sized_passed :
      (c : Settings) (s : Scope) (k : Kind)
      → sized py c s k ≡ passed
      → k ≡ http
      → too_long (content_length py s.headers) c.max_body_bytes ≡ false
  sized_passed c s http h e = ground arith
  sized_passed c s _ h e = absurd (cc)

  admit-guard :
      (c : Settings) (s : Scope) (now : ℕ) (l : TokenBucketRateLimiter)
      → is_guarded s.kind ≡ true
      → is_exempt s.path ≡ false
      → admit py c s now l ≡ guard py c s now l
  unfolding admit
  admit-guard c s now l g e = ground arith

  limited_passed :
      (c : Settings) (s : Scope) (r : Option ℕ × TokenBucketRateLimiter)
      → (after_allow py c s r).0 ≡ passed
      → (r.0 ≡ none) × (sized py c s s.kind ≡ passed)
  limited_passed c s (none, l) h = (refl, h)
  limited_passed c s (some d, l) h = absurd (cc)

  after_auth_passed :
      (c : Settings) (s : Scope) (now : ℕ) (l : TokenBucketRateLimiter) (r : Result TypeError Bool)
      → (after_auth py c s now l r).0 ≡ passed
      → (r ≡ ok true) × ((limited py c s now l).0 ≡ passed)
  after_auth_passed c s now l (ok true) h = (refl, h)
  after_auth_passed c s now l (ok false) h = absurd (cc)
  after_auth_passed c s now l (err x) h = absurd (cc)

  -- With authentication on, a request over HTTP or a websocket to a path that is not exempt reaches
  -- the application only with a key that is not empty, is configured, and has a token to spend at
  -- that time; over HTTP its Content-Length, if it has one, is within the limit.
  pub admit-IsAdmitted :
      (c : Settings) (s : Scope) (now : ℕ) (l : TokenBucketRateLimiter)
      → c.auth_enabled ≡ true
      → is_guarded s.kind ≡ true
      → is_exempt s.path ≡ false
      → (admit py c s now l).0 ≡ passed
      → IsAdmitted py c s now l
  admit-IsAdmitted c s now l auth g e h =
      let (valid, rest) =
        after_auth_passed c s now l (key_valid (extract_key py s) c.api_keys)
          (rw (admit-guard c s now l g e, auth) at h) in
      let (k, carried, more, listed) = key_valid-true (extract_key py s) c.api_keys valid in
      let (budget, size) =
        limited_passed c s (allow (or_anonymous (extract_key py s)) now l) rest in
      record {
        key = k;
        carried = carried;
        not_empty = more;
        listed = listed;
        in_budget = rw (carried, more) at budget;
        fits = sized_passed c s s.kind size;
      }

  -- With authentication on, a request over HTTP or a websocket to a path that is not exempt, whose
  -- key is ASCII text and differs from every configured key, is refused as unauthorized, and no
  -- bucket changes.
  pub admit-IsForeign :
      (c : Settings) (s : Scope) (now : ℕ) (l : TokenBucketRateLimiter) (k : String)
      → c.auth_enabled ≡ true
      → is_guarded s.kind ≡ true
      → is_exempt s.path ≡ false
      → extract_key py s ≡ some k
      → IsForeign k c.api_keys
      → admit py c s now l ≡ (unauthorized, l)
  admit-IsForeign c s now l k auth g e x f =
      rw (admit-guard c s now l g e, auth, x, key_valid-IsForeign k c.api_keys f) refl
