-- ===== src/Endpoint/GatewayUrl.antt =====
-- gateway.c: the functions that begin a request.
pub mod Calls
use wineberry_discord.Prelude.{Bool, [], none, ◌/◌}
use wineberry_discord.Prelude.Texts.{codes}
use wineberry_discord.Rest.Key.{get}
use wineberry_discord.Endpoint.{object, Reply, runs, expect}

abbrev pub get_gateway : Bool → Reply
get_gateway has_ret = expect has_ret (runs get none none object (codes "/gateway") [])

abbrev pub get_gateway_bot : Bool → Reply
get_gateway_bot has_ret = expect has_ret (runs get none none object (codes "/gateway/bot") [])
