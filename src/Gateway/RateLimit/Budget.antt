-- ===== src/Gateway/RateLimit/Budget.antt =====
-- How many requests a key gets through, and when a refused one may come back (allow).
use na_ai.Base.{
  ℕ, ◌+◌, ◌-◌, ◌*◌, ◌≤◌, ◌<◌, String, ◌≡◌, refl, ap, ◌∙◌, inl, inr, Bool, true, false, ◌&&◌, Option,
  none, some, List, [], ◌∷◌, arith, str_eq, eq_iff, eq_refl, leb, if◌then◌else◌, Bool-cases,
}
use na_ai.Base.Dict.{Dict, lookup, insert, lookup-insert}
use na_ai.Gateway.RateLimit.{Bucket, TokenBucketRateLimiter, new, refilled, allow}
use mathlib.Core.Path.{subst₂}
use native.Mathlib.Nat.{mul-le-mul_right}

abbrev pub is_allowed : Option ℕ → Bool
is_allowed none = true
is_allowed (some d) = false

-- The requests of a run are pairs of a key and a time.
pub serve : List (String × ℕ) → TokenBucketRateLimiter → TokenBucketRateLimiter
serve [] l = l
serve ((k, t) ∷ rs) l = serve rs (allow k t l).1

-- How many requests of one key are allowed.
unfoldable pub allowed_of : String → List (String × ℕ) → TokenBucketRateLimiter → ℕ
allowed_of key [] l = 0
allowed_of key ((k, t) ∷ rs) l =
    (if str_eq k key && is_allowed (allow k t l).0 then 1 else 0)
    + allowed_of key rs (allow k t l).1

-- The times do not go back, and begin at `t` or later.
abbrev pub IsOrdered : ℕ → List (String × ℕ) → Type 0
IsOrdered t [] = Unit
IsOrdered t ((k, u) ∷ rs) = (t ≤ u) × IsOrdered u rs

abbrev pub last_time : ℕ → List (String × ℕ) → ℕ
last_time t [] = t
last_time t ((k, u) ∷ rs) = last_time u rs

-- What the key could spend at a time.
abbrev credit : String → ℕ → TokenBucketRateLimiter → ℕ
credit key t l = refilled t (lookup key l.buckets) l

mul-le-add : (a b c r : ℕ) → a ≤ b + c → a * r ≤ b * r + c * r
mul-le-add a b c r h = let m : a * r ≤ (b + c) * r = mul-le-mul_right r h in omega arith

refilled-later :
    (b : Option Bucket) (t u : ℕ) (l : TokenBucketRateLimiter)
    → t ≤ u
    → refilled u b l ≤ refilled t b l + (u - t) * l.rate
unfolding refilled
refilled-later none t u l h = omega arith
refilled-later (some b) t u l h =
    omega (arith, mul-le-add (u - b.stamp) (t - b.stamp) (u - t) l.rate (omega arith))

refilled-le :
    (b : Option Bucket) (t : ℕ) (l : TokenBucketRateLimiter) → refilled t b l ≤ l.burst * l.unit
unfolding refilled
refilled-le none t l = omega arith
refilled-le (some b) t l = omega arith

refilled-same :
    (o : Option Bucket) (t : ℕ) (l : TokenBucketRateLimiter) (bs : Dict Bucket)
    → refilled t o (record l { buckets = bs }) ≡ refilled t o l
unfolding refilled
refilled-same none t l bs = refl
refilled-same (some b) t l bs = refl

-- What was stored at a time is what can be spent at that time.
refilled-stored :
    (x t : ℕ) (l : TokenBucketRateLimiter)
    → x ≤ l.burst * l.unit
    → refilled t (some (record { tokens = x; stamp = t })) l ≡ x
unfolding refilled
refilled-stored x t l h = let z : t - t ≡ 0 = omega arith in rw z (omega arith)

-- The limiter after a call: the called key has one bucket more or less filled, the rates are the
-- same.
allow_lem :
    (k : String) (t : ℕ) (l : TokenBucketRateLimiter)
    → (x : ℕ) × ((allow k t l).1
        ≡ record l { buckets = insert k (record { tokens = x; stamp = t }) l.buckets })
      × ((if is_allowed (allow k t l).0 then 1 else 0) * l.unit + x ≡ credit k t l)
unfolding allow
allow_lem k t l = elim (Bool-cases (leb l.unit (credit k t l))) [
  | inl enough ↦ (credit k t l - l.unit, ground arith, ground arith)
  | inr short ↦ (credit k t l, ground arith, ground arith)
]

-- A request costs its key one token if it is allowed, and leaves the other keys alone.
allow-credit :
    (key k : String) (t : ℕ) (l : TokenBucketRateLimiter)
    → (if str_eq k key && is_allowed (allow k t l).0 then 1 else 0) * l.unit
        + credit key t (allow k t l).1
      ≡ credit key t l
allow-credit key k t l =
    let (x, after, cost) = allow_lem k t l in
    let capped : x ≤ l.burst * l.unit = omega (arith, refilled-le (lookup k l.buckets) t l, cost) in
    elim (Bool-cases (str_eq k key)) [
      | inl same ↦
          let at_key : credit k t l ≡ credit key t l =
            ap (λ j. credit j t l) ((eq_iff k key).0 same) in
          rw (after, same)
            (rw (lookup-insert k key _ l.buckets, same)
              (rw
                (
                  refilled-same (some (record { tokens = x; stamp = t })) t l _,
                  refilled-stored x t l capped,
                )
                (cost ∙ at_key)))
      | inr other ↦
          rw (after, other)
            (rw (lookup-insert k key _ l.buckets, other)
              (rw (refilled-same (lookup key l.buckets) t l _) (omega arith)))
    ]

allow-keeps :
    (k : String) (t : ℕ) (l : TokenBucketRateLimiter)
    → ((allow k t l).1.unit ≡ l.unit)
      × ((allow k t l).1.rate ≡ l.rate)
      × ((allow k t l).1.burst ≡ l.burst)
unfolding allow
allow-keeps k t l = (ground arith, ground arith, ground arith)

last_time-le : (t : ℕ) (rs : List (String × ℕ)) → IsOrdered t rs → t ≤ last_time t rs
last_time-le t [] h = omega arith
last_time-le t ((k, u) ∷ rs) h = omega (arith, h.0, last_time-le u rs h.1)

add_up :
    (one rest unit before now after t u v rate : ℕ)
    → one * unit + after ≡ now
    → now ≤ before + (u - t) * rate
    → rest * unit ≤ after + (v - u) * rate
    → t ≤ u
    → u ≤ v
    → (one + rest) * unit ≤ before + (v - t) * rate
add_up one rest unit before now after t u v rate paid earned more le le' =
    let split : (v - t) * rate ≡ ((u - t) + (v - u)) * rate =
      ap (λ (n : ℕ). n * rate) (omega arith) in
    omega (arith, split)

spent-le :
    (key : String) (rs : List (String × ℕ)) (t : ℕ) (l : TokenBucketRateLimiter)
    → IsOrdered t rs
    → allowed_of key rs l * l.unit ≤ credit key t l + (last_time t rs - t) * l.rate
unfolding allowed_of
spent-le key [] t l h = omega arith
spent-le key ((k, u) ∷ rs) t l h =
    let l' = (allow k u l).1 in
    let (same_unit, same_rate, same_burst) = allow-keeps k u l in
    let rest : allowed_of key rs l' * l.unit ≤ credit key u l' + (last_time u rs - u) * l.rate =
      subst₂ (λ (n r : ℕ). allowed_of key rs l' * n ≤ credit key u l' + (last_time u rs - u) * r)
        same_unit same_rate (spent-le key rs u l' h.1) in
    add_up (if str_eq k key && is_allowed (allow k u l).0 then 1 else 0) (allowed_of key rs l')
      l.unit (credit key t l) (credit key u l) (credit key u l') t u (last_time u rs) l.rate
      (allow-credit key k u l) (refilled-later (lookup key l.buckets) t u l h.0) rest h.0
      (last_time-le u rs h.1)

-- In any run whose times do not go back, the requests of one key that are allowed cost no more tokens
-- than the burst and what is earned between the first time and the last, whatever the other keys do.
pub allowed_of-le :
    (key : String) (rs : List (String × ℕ)) (t unit rate burst : ℕ)
    → IsOrdered t rs
    → allowed_of key rs (new unit rate burst) * unit ≤ burst * unit + (last_time t rs - t) * rate
allowed_of-le key rs t unit rate burst h =
    omega
      (arith, spent-le key rs t (new unit rate burst) h, refilled-le none t (new unit rate burst))

allowed_if :
    (key : String) (u : ℕ) (l : TokenBucketRateLimiter)
    → l.unit ≤ credit key u l
    → (allow key u l).0 ≡ none
unfolding allow
allowed_if key u l h = ground arith

refused_lem :
    (key : String) (t : ℕ) {d : ℕ} (l : TokenBucketRateLimiter)
    → (allow key t l).0 ≡ some d
    → (credit key t l + d ≡ l.unit)
      × ((allow key t l).1 ≡ record l {
        buckets = insert key (record { tokens = credit key t l; stamp = t }) l.buckets;
      })
unfolding allow
refused_lem key t l e = (ground arith, ground arith)

earned_enough :
    (x t u : ℕ) (l : TokenBucketRateLimiter)
    → l.unit ≤ l.burst * l.unit
    → l.unit ≤ x + (u - t) * l.rate
    → l.unit ≤ refilled u (some (record { tokens = x; stamp = t })) l
unfolding refilled
earned_enough x t u l cap h = omega arith

-- A key that is refused, and whose next request comes when the missing parts have been earned or
-- later, is allowed, if the burst is at least one token.
pub refused_then_allowed :
    (key : String) (t u d : ℕ) (l : TokenBucketRateLimiter)
    → 0 < l.burst
    → (allow key t l).0 ≡ some d
    → d ≤ (u - t) * l.rate
    → (allow key u (allow key t l).1).0 ≡ none
refused_then_allowed key t u d l some_burst e earned =
    let (short, after) = refused_lem key t l e in
    let cap : 1 * l.unit ≤ l.burst * l.unit = mul-le-mul_right l.unit some_burst in
    rw after (
      allowed_if key u _ (
        rw (lookup-insert key key _ l.buckets, eq_refl key)
          (rw (refilled-same (some (record { tokens = credit key t l; stamp = t })) u l _)
            (earned_enough (credit key t l) t u l (omega arith) (omega arith)))))
