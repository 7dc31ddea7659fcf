-- ===== src/Endpoint/GatewayUrl/Calls.antt =====
-- gateway.c: that a request that one of the functions runs is sound.
use wineberry_discord.Prelude.{Bool}
use wineberry_discord.Endpoint.{Reply}
use wineberry_discord.Endpoint.Sound.{IsSound, sound_rules}
use wineberry_discord.Endpoint.GatewayUrl

pub data GatewayUrlCall : Type 0 where
  get_gateway : Bool → GatewayUrlCall
  get_gateway_bot : Bool → GatewayUrlCall

abbrev pub reply : GatewayUrlCall → Reply
reply (get_gateway has_ret) = GatewayUrl.get_gateway has_ret
reply (get_gateway_bot has_ret) = GatewayUrl.get_gateway_bot has_ret

pub reply-IsSound : (c : GatewayUrlCall) → IsSound (reply c)
unfolding wineberry_discord.Rest.Key.consume
reply-IsSound (get_gateway has_ret) = search sound_rules depth 12
reply-IsSound _ = search sound_rules depth 12
