-- ===== src/Endpoint/VoiceRegion/Calls.antt =====
-- voice.c: that a request that one of the functions runs is sound.
use wineberry_discord.Endpoint.{Reply}
use wineberry_discord.Endpoint.Sound.{IsSound, sound_rules}
use wineberry_discord.Endpoint.VoiceRegion

pub data VoiceRegionCall : Type 0 where
  list_voice_regions : VoiceRegionCall

abbrev pub reply : VoiceRegionCall → Reply
reply list_voice_regions = VoiceRegion.list_voice_regions

pub reply-IsSound : (c : VoiceRegionCall) → IsSound (reply c)
unfolding wineberry_discord.Rest.Key.consume
reply-IsSound list_voice_regions = search sound_rules depth 12
