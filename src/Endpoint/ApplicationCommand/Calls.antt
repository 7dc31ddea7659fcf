-- ===== src/Endpoint/ApplicationCommand/Calls.antt =====
-- application-command.c: that a request that one of the functions runs is sound.
use wineberry_discord.Prelude.{ℕ, Bool, Option}
use wineberry_discord.Endpoint.{Reply}
use wineberry_discord.Endpoint.Sound.{IsSound, sound_rules}
use wineberry_discord.Endpoint.ApplicationCommand
use wineberry_discord.Endpoint.ApplicationCommand.{
  CreateGlobalApplicationCommand, CreateGuildApplicationCommand,
}

pub data ApplicationCommandCall : Type 0 where
  get_global_application_commands : ℕ → ApplicationCommandCall
  create_global_application_command :
      ℕ → Option CreateGlobalApplicationCommand → ℕ → ApplicationCommandCall
  get_global_application_command : ℕ → ℕ → ApplicationCommandCall
  edit_global_application_command : ℕ → ℕ → ℕ → ApplicationCommandCall
  delete_global_application_command : ℕ → ℕ → ApplicationCommandCall
  bulk_overwrite_global_application_commands : ℕ → Bool → ℕ → ApplicationCommandCall
  get_guild_application_commands : ℕ → ℕ → ApplicationCommandCall
  create_guild_application_command :
      ℕ → ℕ → Option CreateGuildApplicationCommand → ℕ → ApplicationCommandCall
  get_guild_application_command : ℕ → ℕ → ℕ → ApplicationCommandCall
  edit_guild_application_command : ℕ → ℕ → ℕ → ℕ → ApplicationCommandCall
  delete_guild_application_command : ℕ → ℕ → ℕ → ApplicationCommandCall
  bulk_overwrite_guild_application_commands : ℕ → ℕ → Bool → ℕ → ApplicationCommandCall
  get_guild_application_command_permissions : ℕ → ℕ → ApplicationCommandCall
  get_application_command_permissions : ℕ → ℕ → ℕ → ApplicationCommandCall

abbrev pub reply : ApplicationCommandCall → Reply
reply (get_global_application_commands application_id) =
    ApplicationCommand.get_global_application_commands application_id
reply (create_global_application_command application_id params size) =
    ApplicationCommand.create_global_application_command application_id params size
reply (get_global_application_command application_id command_id) =
    ApplicationCommand.get_global_application_command application_id command_id
reply (edit_global_application_command application_id command_id size) =
    ApplicationCommand.edit_global_application_command application_id command_id size
reply (delete_global_application_command application_id command_id) =
    ApplicationCommand.delete_global_application_command application_id command_id
reply (bulk_overwrite_global_application_commands application_id has_params size) =
    ApplicationCommand.bulk_overwrite_global_application_commands application_id has_params size
reply (get_guild_application_commands application_id guild_id) =
    ApplicationCommand.get_guild_application_commands application_id guild_id
reply (create_guild_application_command application_id guild_id params size) =
    ApplicationCommand.create_guild_application_command application_id guild_id params size
reply (get_guild_application_command application_id guild_id command_id) =
    ApplicationCommand.get_guild_application_command application_id guild_id command_id
reply (edit_guild_application_command application_id guild_id command_id size) =
    ApplicationCommand.edit_guild_application_command application_id guild_id command_id size
reply (delete_guild_application_command application_id guild_id command_id) =
    ApplicationCommand.delete_guild_application_command application_id guild_id command_id
reply (bulk_overwrite_guild_application_commands application_id guild_id has_params size) =
    ApplicationCommand.bulk_overwrite_guild_application_commands application_id guild_id has_params
      size
reply (get_guild_application_command_permissions application_id guild_id) =
    ApplicationCommand.get_guild_application_command_permissions application_id guild_id
reply (get_application_command_permissions application_id guild_id command_id) =
    ApplicationCommand.get_application_command_permissions application_id guild_id command_id

pub reply-IsSound : (c : ApplicationCommandCall) → IsSound (reply c)
unfolding wineberry_discord.Rest.Key.consume
reply-IsSound (get_global_application_commands application_id) = search sound_rules depth 12
reply-IsSound _ = search sound_rules depth 12
