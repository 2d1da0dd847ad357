-- ===== src/Gateway/RateLimit.antt =====
-- The token bucket of omniai/gateway/security.py. Its floating-point amounts are whole parts: `unit`
-- parts make one token, `rate` parts are earned in one tick of the clock.
pub mod Budget
mod Tests
use na_ai.Base.{
  ℕ, zero, suc, ◌+◌, ◌-◌, ◌*◌, ◌/◌, ◌%◌, ◌^◌, ◌≤◌, ◌<◌, min, max, String, ◌≡◌, refl, sym, ap, ◌∙◌,
  ◌≢◌, ◌↔◌, ◌⊎◌, inl, inr, Bool, true, false, ◌&&◌, ◌||◌, not, Option, none, some, List, [], ◌∷◌,
  ◌++◌, map, arith, str_eq, eq_iff, eq_refl, ltb, leb, ◌==◌, if◌then◌else◌, leb→le, le→leb,
  Bool-cases, Option-cases, truthy, opt_eq, length, take, drop, filter, last?, length-append,
  length-filter, length-take, All, All-map, All-filter, opt_eq→eq, opt_eq_refl, filter-nil,
  All-append_left, All-append_right, last?-snoc,
}
use na_ai.Base.Dict.{Dict, lookup, insert, lookup-insert}

pub record Bucket : Type 0 where
  pub tokens : ℕ
  pub stamp : ℕ

pub record TokenBucketRateLimiter : Type 0 where
  pub unit : ℕ
  pub rate : ℕ
  pub burst : ℕ
  pub buckets : Dict Bucket

abbrev pub new : ℕ → ℕ → ℕ → TokenBucketRateLimiter
new unit rate burst = record { unit = unit; rate = rate; burst = burst; buckets = [] }

-- `self._buckets.get(key, (float(self.burst), now))`, refilled up to `burst` tokens.
unfoldable pub refilled : ℕ → Option Bucket → TokenBucketRateLimiter → ℕ
refilled now none l = min (l.burst * l.unit) (l.burst * l.unit + 0 * l.rate)
refilled now (some b) l = min (l.burst * l.unit) (b.tokens + (now - b.stamp) * l.rate)

abbrev store : String → ℕ → ℕ → TokenBucketRateLimiter → TokenBucketRateLimiter
store key tokens now l = record l {
  buckets = insert key (record { tokens = tokens; stamp = now }) l.buckets;
}

-- `allow`: `none` if allowed, otherwise the parts that are missing. The source divides them by the
-- rate, which gives the time to wait.
unfoldable pub allow : String → ℕ → TokenBucketRateLimiter → Option ℕ × TokenBucketRateLimiter
unfolding refilled
allow key now l =
    let tokens = refilled now (lookup key l.buckets) l in
    if leb l.unit tokens
    then (none, store key (tokens - l.unit) now l)
    else (some (l.unit - tokens), store key tokens now l)
