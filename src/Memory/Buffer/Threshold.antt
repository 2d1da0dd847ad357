-- ===== src/Memory/Buffer/Threshold.antt =====
-- How often the threshold's callback is called (InteractionBuffer.log).
use na_ai.Base.{
  ℕ, ◌+◌, ◌*◌, ◌≤◌, ◌<◌, ◌≡◌, refl, inl, inr, true, false, Option, some, List, [], ◌∷◌, arith, leb,
  if◌then◌else◌, length, Bool-cases,
}
use na_ai.Protocol.{OmniMessage}
use na_ai.Memory.Buffer.{Interaction, InteractionBuffer, new, ready, check_threshold, log}

-- The calls of the callback while these messages are logged.
unfoldable pub calls : List OmniMessage → InteractionBuffer → ℕ
calls [] b = 0
calls (m ∷ ms) b = let rest = calls ms (log m b).1 in (if (log m b).0 then 1 else 0) + rest

-- A buffer in use, so many messages behind its last call.
record IsBehind (t d : ℕ) (b : InteractionBuffer) : Type 0 where
  limit : b.threshold ≡ some t
  callback : b.has_callback ≡ true
  base : ℕ
  fired : b.fired_at ≡ some base
  count : b.approx_count ≡ base + d

log_due :
    (t d : ℕ) (m : OmniMessage) (b : InteractionBuffer)
    → IsBehind t d b
    → t ≤ d + 1
    → ((log m b).0 ≡ true) × IsBehind t 0 (log m b).1
unfolding log check_threshold
log_due t d m b h le =
    let due : leb (h.base + t) ((h.base + d) + 1) ≡ true = ground arith in
    rw (h.limit, h.callback, h.fired, h.count, due)
      (
        refl,
        record {
          limit = refl;
          callback = refl;
          base = h.base + d + 1;
          fired = refl;
          count = omega arith;
        },
      )

log_waits :
    (t d : ℕ) (m : OmniMessage) (b : InteractionBuffer)
    → IsBehind t d b
    → d + 1 < t
    → ((log m b).0 ≡ false) × IsBehind t (d + 1) (log m b).1
unfolding log check_threshold
log_waits t d m b h lt =
    let early : leb (h.base + t) ((h.base + d) + 1) ≡ false = ground arith in
    rw (h.limit, h.callback, h.fired, h.count, early)
      (
        refl,
        record { limit = refl; callback = refl; base = h.base; fired = refl; count = omega arith },
      )

one_more : (f t : ℕ) → ((1 + f) * t ≡ t + f * t) × (((1 + f) + 1) * t ≡ t + (f + 1) * t)
one_more f t = (omega arith, omega arith)

due_le : (t d : ℕ) → leb t (d + 1) ≡ true → t ≤ d + 1
due_le t d h = ground arith

calls_behind :
    (t d : ℕ) (ms : List OmniMessage) (b : InteractionBuffer)
    → 0 < t
    → IsBehind t d b
    → d < t
    → (calls ms b * t ≤ d + length ms) × (d + length ms < (calls ms b + 1) * t)
unfolding calls
calls_behind t d [] b pos h lt = (omega arith, omega arith)
calls_behind t d (m ∷ ms) b pos h lt = elim (Bool-cases (leb t (d + 1))) [
  | inl due ↦
      let (fires, h') = log_due t d m b h (ground arith) in
      let (low, high) = calls_behind t 0 ms (log m b).1 pos h' pos in
      let (once, twice) = one_more (calls ms (log m b).1) t in
      rw fires
        (omega (arith, low, lt, once, due_le t d due), omega (arith, high, twice, due_le t d due))
  | inr early ↦
      let (waits, h') = log_waits t d m b h (ground arith) in
      let (low, high) = calls_behind t (d + 1) ms (log m b).1 pos h' (ground arith) in
      rw waits (omega (arith, low), omega (arith, high))
]

calls-ready :
    (ms : List OmniMessage) (b : InteractionBuffer)
    → 0 < length ms
    → calls ms b ≡ calls ms (ready b)
unfolding calls log
calls-ready [] b h = absurd (omega arith)
calls-ready (m ∷ ms) b h = refl

-- A new process that logs `n` messages calls the threshold's callback exactly `n / t` times, for a
-- positive threshold `t`, whatever rows it finds: also where messages replace each other's rows.
pub calls_lem :
    (rows : List Interaction) (watermark : Option ℕ) (t : ℕ) (ms : List OmniMessage)
    → 0 < t
    → (calls ms (new rows watermark (some t) true) * t ≤ length ms)
      × (length ms < (calls ms (new rows watermark (some t) true) + 1) * t)
unfolding calls
calls_lem rows watermark t [] pos = (omega arith, omega arith)
calls_lem rows watermark t (m ∷ ms) pos =
    let b = new rows watermark (some t) true in
    let (low, high) =
      calls_behind t 0 (m ∷ ms) (ready b) pos
        (record {
          limit = refl;
          callback = refl;
          base = length rows;
          fired = refl;
          count = omega arith;
        })
        pos in
    rw (calls-ready (m ∷ ms) b (omega arith)) (omega (arith, low), omega (arith, high))
