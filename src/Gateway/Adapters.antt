-- ===== src/Gateway/Adapters.antt =====
-- The codecs of omniai/gateway/adapters.py. Of a JSON object the model keeps the fields that are
-- read.
pub mod Discord
mod Tests
use na_ai.Base.{
  ℕ, String, Bool, true, false, Option, none, some, List, [], ◌∷◌, str_eq, if◌then◌else◌,
}
use na_ai.Base.Dict.{Dict, lookup}
use na_ai.Base.Result.{Result, ok, err, ◌>>=◌, ◌>>◌}
use na_ai.Protocol.{Role, user, Channel, Value, null, OmniMessage}

-- A field of a payload: absent, `null`, another value that counts as false, a value of the wanted
-- type, or a value of another type that counts as true.
pub data Field (A : Type 0) : Type 0 where
  missing nothing empty : Field A
  given : A → Field A
  wrong : Field A

-- The code fails with a `TypeError`, an `AttributeError` or a validation error.
pub data Invalid : Type 0 where
  invalid : Invalid

-- `payload.get(key) or default`, where a value of the wrong type is refused later.
abbrev pub coalesced : {A : Type 0} → (A → Bool) → A → Field A → Result Invalid A
coalesced is_false default (given a) = ok (if is_false a then default else a)
coalesced is_false default wrong = err invalid
coalesced is_false default _ = ok default

abbrev pub is_empty_text : String → Bool
is_empty_text s = str_eq s ""

abbrev pub is_empty_dict : Dict Value → Bool
is_empty_dict [] = true
is_empty_dict (x ∷ d) = false

pub record RestPayload : Type 0 where
  pub content : Field String
  pub session_id : Field String
  pub metadata : Field (Dict Value)

pub record RestResponse : Type 0 where
  pub id : String
  pub session_id : String
  pub role : Role
  pub content : String
  pub metadata : Dict Value

abbrev pub inbound : Channel → String → ℕ → String → String → Dict Value → OmniMessage
inbound channel new_id now content session_id metadata = record {
  id = new_id;
  session_id = session_id;
  channel = channel;
  role = user;
  content = content;
  tool_calls = [];
  metadata = metadata;
  created_at = now;
}

-- `RestAdapter.to_omni`, and `WebSocketAdapter.to_omni` on the other channel.
unfoldable pub rest_to_omni : Channel → String → ℕ → RestPayload → Result Invalid OmniMessage
rest_to_omni channel new_id now p = do
  content ← coalesced is_empty_text "" p.content
  session_id ← coalesced is_empty_text "default" p.session_id
  metadata ← coalesced is_empty_dict [] p.metadata
  ok (inbound channel new_id now content session_id metadata)

-- `RestAdapter.from_omni`
abbrev pub rest_from_omni : OmniMessage → RestResponse
rest_from_omni m = record {
  id = m.id;
  session_id = m.session_id;
  role = m.role;
  content = m.content;
  metadata = m.metadata;
}

-- `channel_id` is the text that `str` makes of it.
pub record DiscordPayload : Type 0 where
  pub content : Field String
  pub channel_id : Option String
  pub author : Field (Dict Value)
  pub member : Field (Field (Dict Value))
  pub id : Option Value
  pub guild_id : Option Value

-- `payload.get("content", "")`: `len` of what it gives fails for `null`.
abbrev pub discord_content : Field String → Result Invalid String
discord_content missing = ok ""
discord_content (given s) = ok s
discord_content _ = err invalid

-- `member.get("user", {})`, on which `get` is called.
abbrev pub user_of : Field (Dict Value) → Result Invalid (Dict Value)
user_of missing = ok []
user_of (given d) = ok d
user_of _ = err invalid

-- `payload.get("member", {})`
abbrev pub member_user : Field (Field (Dict Value)) → Result Invalid (Dict Value)
member_user missing = ok []
member_user (given u) = user_of u
member_user _ = err invalid

-- `payload.get("author", {}) or ...`
abbrev pub author_of : Field (Dict Value) → Field (Field (Dict Value)) → Result Invalid (Dict Value)
author_of (given []) member = member_user member
author_of (given (x ∷ d)) member = ok (x ∷ d)
author_of wrong member = err invalid
author_of _ member = member_user member

abbrev pub or_discord : Option String → String
or_discord none = "discord"
or_discord (some s) = s

abbrev pub or_none_value : Option Value → Value
or_none_value none = null
or_none_value (some v) = v

-- `DiscordAdapter.to_omni`
unfoldable pub discord_to_omni : Channel → String → ℕ → DiscordPayload → Result Invalid OmniMessage
discord_to_omni channel new_id now p = do
  content ← discord_content p.content
  author ← author_of p.author p.member
  ok (
      inbound channel new_id now content (or_discord p.channel_id) (
        ("discord_message_id", or_none_value p.id)
        ∷ ("author_id", or_none_value (lookup "id" author))
        ∷ ("author_name", or_none_value (lookup "username" author))
        ∷ ("guild_id", or_none_value p.guild_id)
        ∷ []))

-- The webhook's route reads the author's name for its log before it decodes: it calls `get` on
-- `payload.get("author", {})`.
abbrev pub author_logged : Field (Dict Value) → Result Invalid (Unit {0})
author_logged missing = ok tt
author_logged (given d) = ok tt
author_logged _ = err invalid

-- What `discord_webhook` does with a payload up to `dispatch`.
unfoldable pub webhook_to_omni : Channel → String → ℕ → DiscordPayload → Result Invalid OmniMessage
unfolding discord_to_omni
webhook_to_omni channel new_id now p = do
  u ← author_logged p.author
  discord_to_omni channel new_id now p
