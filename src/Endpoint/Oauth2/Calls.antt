-- ===== src/Endpoint/Oauth2/Calls.antt =====
-- oauth2.c: that a request that one of the functions runs is sound.
use wineberry_discord.Endpoint.{Reply}
use wineberry_discord.Endpoint.Sound.{IsSound, sound_rules}
use wineberry_discord.Endpoint.Oauth2

pub data Oauth2Call : Type 0 where
  get_current_bot_application_information : Oauth2Call
  get_current_authorization_information : Oauth2Call

abbrev pub reply : Oauth2Call → Reply
reply get_current_bot_application_information = Oauth2.get_current_bot_application_information
reply get_current_authorization_information = Oauth2.get_current_authorization_information

pub reply-IsSound : (c : Oauth2Call) → IsSound (reply c)
unfolding wineberry_discord.Rest.Key.consume
reply-IsSound get_current_bot_application_information = search sound_rules depth 12
reply-IsSound _ = search sound_rules depth 12
