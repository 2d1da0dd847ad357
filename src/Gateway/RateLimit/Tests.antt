-- ===== src/Gateway/RateLimit/Tests.antt =====
-- The theorems on the token bucket, at concrete requests: four parts make a token, two are earned in
-- one tick, and two tokens may be saved up.
use na_ai.Base.{ℕ, ◌+◌, ◌-◌, ◌*◌, ◌≤◌, String, ◌≡◌, refl, none, some, List, [], ◌∷◌, arith}
use na_ai.Gateway.RateLimit.{TokenBucketRateLimiter, new, refilled, allow}
use na_ai.Gateway.RateLimit.Budget.{allowed_of, allowed_of-le, refused_then_allowed}

abbrev requests : List (String × ℕ)
requests = ("k", 5) ∷ ("k", 5) ∷ ("j", 5) ∷ ("k", 6) ∷ ("k", 7) ∷ []

allowed_of-le_example : allowed_of "k" requests (new 4 2 2) * 4 ≤ 2 * 4 + (7 - 5) * 2
allowed_of-le_example =
    allowed_of-le "k" requests 5 4 2 2
      (omega arith, (omega arith, (omega arith, (omega arith, (omega arith, tt)))))

three_allowed : allowed_of "k" requests (new 4 2 2) ≡ 3
unfolding allowed_of allow refilled
three_allowed = refl

abbrev spent : TokenBucketRateLimiter
spent = record (new 4 2 2) { buckets = ("k", record { tokens = 1; stamp = 5 }) ∷ [] }

spent_refuses : (allow "k" 5 spent).0 ≡ some 3
unfolding allow refilled
spent_refuses = refl

refused_then_allowed_example : (allow "k" 7 (allow "k" 5 spent).1).0 ≡ none
refused_then_allowed_example =
    refused_then_allowed "k" 5 7 3 spent (omega arith) spent_refuses (omega arith)
