-- ===== src/Gateway/BodyLimit.antt =====
-- The cap on a body that is read in parts, of omniai/gateway/security.py (BodyLimitMiddleware).
mod Tests
use na_ai.Base.{
  ℕ, ◌+◌, ◌≤◌, ◌≡◌, refl, ap, ◌∙◌, inl, inr, List, [], ◌∷◌, arith, ltb, leb, if◌then◌else◌,
  Bool-cases,
}
use na_ai.Base.Result.{Result, ok, err}

-- What `receive` returns: a part of the body with so many bytes, or another message.
pub data Message : Type 0 where
  request : ℕ → Message
  disconnect : Message

pub data BodyLimitExceeded : Type 0 where
  exceeded : ℕ → BodyLimitExceeded

-- `limited_receive`: the message or the error, and the bytes received so far.
abbrev pub limited_receive : ℕ → ℕ → Message → Result BodyLimitExceeded Message × ℕ
limited_receive limit received disconnect = (ok disconnect, received)
limited_receive limit received (request n) =
    if ltb limit (received + n)
    then (err (exceeded limit), received + n)
    else (ok (request n), received + n)

abbrev pub and_then :
    Result BodyLimitExceeded Message
    → Result BodyLimitExceeded (List Message)
    → Result BodyLimitExceeded (List Message)
and_then (err x) rest = err x
and_then (ok m) (err x) = err x
and_then (ok m) (ok ms) = ok (m ∷ ms)

-- An application that receives these messages one by one.
pub receive_all : ℕ → ℕ → List Message → Result BodyLimitExceeded (List Message)
receive_all limit received [] = ok []
receive_all limit received (m ∷ ms) =
    let rest = receive_all limit (limited_receive limit received m).1 ms in
    and_then (limited_receive limit received m).0 rest

abbrev pub size : Message → ℕ
size (request n) = n
size disconnect = 0

abbrev pub total : List Message → ℕ
total [] = 0
total (m ∷ ms) = size m + total ms

receive_more :
    (limit received : ℕ) (ms : List Message)
    → received ≤ limit
    → receive_all limit received ms
      ≡ (if leb (received + total ms) limit then ok ms else err (exceeded limit))
unfolding receive_all
receive_more limit received [] h = ground arith
receive_more limit received (disconnect ∷ ms) h = ground (arith, receive_more limit received ms h)
receive_more limit received (request n ∷ ms) h = elim (Bool-cases (ltb limit (received + n))) [
  | inl over ↦ ground (arith, over)
  | inr room ↦
      let rest = receive_more limit (received + n) ms (ground arith) in
      rw room (rw rest (ground arith))
]

-- Reading a body delivers every message unchanged if their sizes add up to the limit at most, and
-- raises `BodyLimitExceeded` otherwise, however the body is cut into parts.
pub receive_all_lem :
    (limit : ℕ) (ms : List Message)
    → receive_all limit 0 ms ≡ (if leb (total ms) limit then ok ms else err (exceeded limit))
receive_all_lem limit ms =
    let sum : 0 + total ms ≡ total ms = omega arith in
    receive_more limit 0 ms (omega arith)
    ∙ ap (λ (n : ℕ). if leb n limit then ok ms else err (exceeded limit)) sum
