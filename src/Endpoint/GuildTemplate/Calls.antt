-- ===== src/Endpoint/GuildTemplate/Calls.antt =====
-- guild-template.c: that a request that one of the functions runs is sound.
use wineberry_discord.Prelude.{ℕ, Option}
use wineberry_discord.Prelude.Texts.{Text}
use wineberry_discord.Endpoint.{Reply}
use wineberry_discord.Endpoint.Sound.{IsSound, sound_rules}
use wineberry_discord.Endpoint.GuildTemplate

pub data GuildTemplateCall : Type 0 where
  get_guild_template : Option Text → GuildTemplateCall
  create_guild_from_guild_template : Option Text → ℕ → GuildTemplateCall
  get_guild_templates : ℕ → GuildTemplateCall
  create_guild_template : ℕ → ℕ → GuildTemplateCall
  sync_guild_template : ℕ → Option Text → GuildTemplateCall
  modify_guild_template : ℕ → Option Text → ℕ → GuildTemplateCall
  delete_guild_template : ℕ → Option Text → GuildTemplateCall

abbrev pub reply : GuildTemplateCall → Reply
reply (get_guild_template template_code) = GuildTemplate.get_guild_template template_code
reply (create_guild_from_guild_template template_code size) =
    GuildTemplate.create_guild_from_guild_template template_code size
reply (get_guild_templates guild_id) = GuildTemplate.get_guild_templates guild_id
reply (create_guild_template guild_id size) = GuildTemplate.create_guild_template guild_id size
reply (sync_guild_template guild_id template_code) =
    GuildTemplate.sync_guild_template guild_id template_code
reply (modify_guild_template guild_id template_code size) =
    GuildTemplate.modify_guild_template guild_id template_code size
reply (delete_guild_template guild_id template_code) =
    GuildTemplate.delete_guild_template guild_id template_code

pub reply-IsSound : (c : GuildTemplateCall) → IsSound (reply c)
unfolding wineberry_discord.Rest.Key.consume
reply-IsSound (get_guild_templates guild_id) = search sound_rules depth 12
reply-IsSound _ = search sound_rules depth 12
