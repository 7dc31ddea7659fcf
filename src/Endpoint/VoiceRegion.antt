-- ===== src/Endpoint/VoiceRegion.antt =====
-- voice.c: the functions that begin a request.
pub mod Calls
use wineberry_discord.Prelude.{[], none, ◌/◌}
use wineberry_discord.Prelude.Texts.{codes}
use wineberry_discord.Rest.Key.{get}
use wineberry_discord.Endpoint.{list, Reply, runs}

abbrev pub list_voice_regions : Reply
list_voice_regions = runs get none none list (codes "/voice/regions") []
