-- ===== src/Endpoint/Stage/Calls.antt =====
-- stage_instance.c: that a request that one of the functions runs is sound.
use wineberry_discord.Prelude.{ℕ, Option}
use wineberry_discord.Prelude.Texts.{Text}
use wineberry_discord.Endpoint.{Reply}
use wineberry_discord.Endpoint.Sound.{IsSound, sound_rules}
use wineberry_discord.Endpoint.Stage

pub data StageCall : Type 0 where
  get_stage_instance : ℕ → StageCall
  delete_stage_instance : ℕ → Option (Option Text) → StageCall

abbrev pub reply : StageCall → Reply
reply (get_stage_instance channel_id) = Stage.get_stage_instance channel_id
reply (delete_stage_instance channel_id params) = Stage.delete_stage_instance channel_id params

pub reply-IsSound : (c : StageCall) → IsSound (reply c)
unfolding wineberry_discord.Rest.Key.consume
reply-IsSound (get_stage_instance channel_id) = search sound_rules depth 12
reply-IsSound _ = search sound_rules depth 12
