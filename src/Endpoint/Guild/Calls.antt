-- ===== src/Endpoint/Guild/Calls.antt =====
-- guild.c: that a request that one of the functions runs is sound.
use wineberry_discord.Prelude.{ℕ, Bool, Option}
use wineberry_discord.Prelude.Texts.{Text}
use wineberry_discord.Endpoint.{Reply}
use wineberry_discord.Endpoint.Sound.{IsSound, sound_rules}
use wineberry_discord.Endpoint.Guild

pub data GuildCall : Type 0 where
  create_guild : Bool → ℕ → GuildCall
  get_guild : ℕ → GuildCall
  get_guild_preview : ℕ → GuildCall
  modify_guild : ℕ → Option (Option Text) → ℕ → GuildCall
  delete_guild : ℕ → GuildCall
  get_guild_channels : ℕ → GuildCall
  create_guild_channel : ℕ → Option (Option Text) → ℕ → GuildCall
  modify_guild_channel_positions : ℕ → Bool → ℕ → GuildCall
  begin_guild_prune : ℕ → Option (Option Text) → ℕ → GuildCall
  get_guild_voice_regions : ℕ → GuildCall
  get_guild_invites : ℕ → GuildCall
  get_guild_integrations : ℕ → GuildCall
  delete_guild_integrations : ℕ → ℕ → Option (Option Text) → GuildCall
  get_guild_widget_settings : ℕ → GuildCall
  modify_guild_widget : ℕ → Option (Option Text) → ℕ → GuildCall
  get_guild_widget : ℕ → GuildCall
  get_guild_vanity_url : ℕ → GuildCall
  get_guild_welcome_screen : ℕ → GuildCall
  modify_guild_welcome_screen : ℕ → Option (Option Text) → ℕ → GuildCall

abbrev pub reply : GuildCall → Reply
reply (create_guild has_params size) = Guild.create_guild has_params size
reply (get_guild guild_id) = Guild.get_guild guild_id
reply (get_guild_preview guild_id) = Guild.get_guild_preview guild_id
reply (modify_guild guild_id params size) = Guild.modify_guild guild_id params size
reply (delete_guild guild_id) = Guild.delete_guild guild_id
reply (get_guild_channels guild_id) = Guild.get_guild_channels guild_id
reply (create_guild_channel guild_id params size) = Guild.create_guild_channel guild_id params size
reply (modify_guild_channel_positions guild_id has_params size) =
    Guild.modify_guild_channel_positions guild_id has_params size
reply (begin_guild_prune guild_id params size) = Guild.begin_guild_prune guild_id params size
reply (get_guild_voice_regions guild_id) = Guild.get_guild_voice_regions guild_id
reply (get_guild_invites guild_id) = Guild.get_guild_invites guild_id
reply (get_guild_integrations guild_id) = Guild.get_guild_integrations guild_id
reply (delete_guild_integrations guild_id integration_id params) =
    Guild.delete_guild_integrations guild_id integration_id params
reply (get_guild_widget_settings guild_id) = Guild.get_guild_widget_settings guild_id
reply (modify_guild_widget guild_id params size) = Guild.modify_guild_widget guild_id params size
reply (get_guild_widget guild_id) = Guild.get_guild_widget guild_id
reply (get_guild_vanity_url guild_id) = Guild.get_guild_vanity_url guild_id
reply (get_guild_welcome_screen guild_id) = Guild.get_guild_welcome_screen guild_id
reply (modify_guild_welcome_screen guild_id params size) =
    Guild.modify_guild_welcome_screen guild_id params size

pub reply-IsSound : (c : GuildCall) → IsSound (reply c)
unfolding wineberry_discord.Rest.Key.consume
reply-IsSound (get_guild guild_id) = search sound_rules depth 12
reply-IsSound _ = search sound_rules depth 12
