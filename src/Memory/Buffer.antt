-- ===== src/Memory/Buffer.antt =====
-- The interaction log of omniai/memory/buffer.py. The database is a list of rows with distinct ids
-- and the watermark's row; its answers are those of a database that does not fail. The columns that
-- hold JSON are kept as the values in them, and times are natural numbers.
pub mod Threshold
pub mod Watermark
mod Tests
use na_ai.Base.{
  ℕ, ◌+◌, String, Bool, true, false, ◌&&◌, ◌||◌, Option, none, some, List, [], ◌∷◌, str_eq, ltb,
  leb, ◌==◌, if◌then◌else◌, length, take, filter,
}
use na_ai.Base.Dict.{Dict}
use na_ai.Protocol.{Role, Channel, Value, ToolCall, OmniMessage}
use Prim.Native.Nat.{Ordering}
use Prim.Native.String.{compare}

pub record Interaction : Type 0 where
  pub id : String
  pub session_id : String
  pub channel : Channel
  pub role : Role
  pub content : String
  pub tool_calls : List ToolCall
  pub metadata : Dict Value
  pub created_at : ℕ

pub record InteractionBuffer : Type 0 where
  pub rows : List Interaction
  pub watermark : Option ℕ
  pub threshold : Option ℕ
  pub has_callback : Bool
  pub approx_count : ℕ
  pub fired_at : Option ℕ

-- A process that opens a database with these rows and this watermark.
abbrev pub new : List Interaction → Option ℕ → Option ℕ → Bool → InteractionBuffer
new rows watermark threshold has_callback = record {
  rows = rows;
  watermark = watermark;
  threshold = threshold;
  has_callback = has_callback;
  approx_count = 0;
  fired_at = none;
}

abbrev pub to_row : OmniMessage → Interaction
to_row m = record {
  id = m.id;
  session_id = m.session_id;
  channel = m.channel;
  role = m.role;
  content = m.content;
  tool_calls = m.tool_calls;
  metadata = m.metadata;
  created_at = m.created_at;
}

-- `session.merge`: a row with the id of an old one replaces it.
pub upsert : Interaction → List Interaction → List Interaction
upsert r [] = r ∷ []
upsert r (s ∷ rows) = let rest = upsert r rows in if str_eq s.id r.id then r ∷ rows else s ∷ rest

abbrev pub counted : Option ℕ → ℕ → ℕ → ℕ
counted none approx rows = rows
counted (some n) approx rows = approx

abbrev pub first_count : Option ℕ → ℕ → ℕ
first_count none rows = rows
first_count (some n) rows = n

-- `_ensure_ready`: the counters are read from the database once.
abbrev pub ready : InteractionBuffer → InteractionBuffer
ready b = record b {
  approx_count = counted b.fired_at b.approx_count (length b.rows);
  fired_at = some (first_count b.fired_at (length b.rows));
}

-- `self._threshold_fired_at or 0`
abbrev pub last_fired : Option ℕ → ℕ
last_fired none = 0
last_fired (some n) = n

abbrev pub is_due : Option ℕ → ℕ → ℕ → Bool
is_due none fired count = false
is_due (some t) fired count = leb (fired + t) count

-- The end of `log`: whether the callback is due. The subtraction stands on the other side.
unfoldable pub check_threshold : InteractionBuffer → Bool × InteractionBuffer
check_threshold b =
    if b.has_callback && is_due b.threshold (last_fired b.fired_at) b.approx_count
    then (true, record b { fired_at = some b.approx_count })
    else (false, b)

-- `log`; the flag says whether `on_threshold` is called.
unfoldable pub log : OmniMessage → InteractionBuffer → Bool × InteractionBuffer
unfolding upsert check_threshold
log m b =
    let c = ready b in
    check_threshold
      (record c { rows = upsert (to_row m) c.rows; approx_count = c.approx_count + 1 })

abbrev pub is_less : Ordering → Bool
is_less Ordering.lt = true
is_less _ = false

-- `order_by(created_at, id)`
abbrev pub is_before : Interaction → Interaction → Bool
is_before a b =
    ltb a.created_at b.created_at || (a.created_at == b.created_at && is_less (compare a.id b.id))

unfoldable pub insert_sorted : Interaction → List Interaction → List Interaction
insert_sorted r [] = r ∷ []
insert_sorted r (s ∷ rs) =
    let rest = insert_sorted r rs in if is_before s r then s ∷ rest else r ∷ (s ∷ rs)

unfoldable pub sorted : List Interaction → List Interaction
unfolding insert_sorted
sorted [] = []
sorted (r ∷ rs) = insert_sorted r (sorted rs)

abbrev pub in_session : Option String → Interaction → Bool
in_session none r = true
in_session (some s) r = str_eq r.session_id s

-- `created_at > since`
abbrev pub is_since : Option ℕ → Interaction → Bool
is_since none r = true
is_since (some t) r = ltb t r.created_at

abbrev pub limited : Option ℕ → List Interaction → List Interaction
limited none rs = rs
limited (some n) rs = take n rs

unfoldable pub fetch : Option String → Option ℕ → Option ℕ → InteractionBuffer → List Interaction
unfolding sorted
fetch session_id limit since b =
    limited limit (sorted (filter (is_since since) (filter (in_session session_id) b.rows)))

abbrev pub set_watermark : ℕ → InteractionBuffer → InteractionBuffer
set_watermark t b = record b { watermark = some t }
