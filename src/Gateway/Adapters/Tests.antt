-- ===== src/Gateway/Adapters/Tests.antt =====
-- The codecs, at concrete payloads.
use na_ai.Base.{◌≤◌, ◌≡◌, refl, none, []}
use na_ai.Base.Result.{ok, err}
use na_ai.Protocol.{OmniMessage, discord, rest}
use na_ai.Gateway.Adapters.{missing, nothing, invalid, inbound, rest_to_omni, discord_to_omni}
use na_ai.Base.Texts.{characters, prefix, rest_after}
use na_ai.Gateway.Adapters.Discord.{discord_from_omni, discord_from_omni_bounds}
use Prim.Native.String.{◌++◌ as ◌⧺◌}

abbrev short : OmniMessage
short = inbound discord "m" 1 "hello" "7" []

short_posted :
    (characters (discord_from_omni short) ≤ 2000)
    × (discord_from_omni short ⧺ rest_after 2000 "hello" ≡ "hello")
    × (characters "hello" ≤ 2000 → discord_from_omni short ≡ "hello")
short_posted = discord_from_omni_bounds short

cut : prefix 3 "héllo" ≡ "hél"
unfolding prefix
cut = refl

-- `null` is a missing field to the REST codec, and an error to the other one.
rest_null :
    rest_to_omni rest "m" 1 (record { content = nothing; session_id = missing; metadata = nothing })
    ≡ ok (inbound rest "m" 1 "" "default" [])
unfolding rest_to_omni
rest_null = refl

discord_null :
    discord_to_omni discord "m" 1 (record {
      content = nothing;
      channel_id = none;
      author = missing;
      member = missing;
      id = none;
      guild_id = none;
    })
    ≡ err invalid
unfolding discord_to_omni
discord_null = refl
