-- ===== src/Gateway/Adapters/Discord.antt =====
-- The length of what is posted to Discord (DiscordAdapter.from_omni).
use na_ai.Base.{ℕ, ◌≤◌, String, ◌≡◌}
use na_ai.Base.Texts.{characters, prefix, rest_after, prefix-le, prefix_all, prefix-rest_after}
use na_ai.Protocol.{OmniMessage}
use Prim.Native.String.{◌++◌ as ◌⧺◌}

abbrev pub max_content_length : ℕ
max_content_length = 2000

-- `DiscordAdapter.from_omni`
unfoldable pub discord_from_omni : OmniMessage → String
discord_from_omni m = prefix max_content_length m.content

-- What is posted to Discord has two thousand characters at most, is the beginning of the message's
-- content, and is all of it if it is that short.
pub discord_from_omni_bounds :
    (m : OmniMessage)
    → (characters (discord_from_omni m) ≤ 2000)
      × (discord_from_omni m ⧺ rest_after 2000 m.content ≡ m.content)
      × (characters m.content ≤ 2000 → discord_from_omni m ≡ m.content)
unfolding discord_from_omni
discord_from_omni_bounds m =
    (prefix-le 2000 m.content, prefix-rest_after 2000 m.content, prefix_all 2000 m.content)
