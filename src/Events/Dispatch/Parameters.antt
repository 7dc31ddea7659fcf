-- ===== src/Events/Dispatch/Parameters.antt =====
-- winecord-events.c: the structs that the callbacks of the setters take.
use wineberry_discord.Prelude.{◌≡◌, some, refl}
use wineberry_discord.Events.{place}
use wineberry_discord.Events.Setters.Calls.{
  Setter, event_of, on_ready, on_application_command_permissions_update,
  on_auto_moderation_rule_create, on_auto_moderation_rule_update, on_auto_moderation_rule_delete,
  on_auto_moderation_action_execution, on_channel_create, on_channel_update, on_channel_delete,
  on_channel_pins_update, on_thread_create, on_thread_update, on_thread_delete, on_thread_list_sync,
  on_thread_member_update, on_thread_members_update, on_guild_create, on_guild_update,
  on_guild_delete, on_guild_ban_add, on_guild_ban_remove, on_guild_emojis_update,
  on_guild_stickers_update, on_guild_integrations_update, on_guild_member_add,
  on_guild_member_update, on_guild_member_remove, on_guild_members_chunk, on_guild_role_create,
  on_guild_role_update, on_guild_role_delete, on_guild_scheduled_event_create,
  on_guild_scheduled_event_update, on_guild_scheduled_event_delete,
  on_guild_scheduled_event_user_add, on_guild_scheduled_event_user_remove, on_integration_create,
  on_integration_update, on_integration_delete, on_interaction_create, on_invite_create,
  on_invite_delete, on_message_create, on_message_update, on_message_delete, on_message_delete_bulk,
  on_message_reaction_add, on_message_reaction_remove, on_message_reaction_remove_all,
  on_message_reaction_remove_emoji, on_presence_update, on_stage_instance_create,
  on_stage_instance_update, on_stage_instance_delete, on_typing_start, on_user_update,
  on_voice_state_update, on_voice_server_update, on_webhooks_update,
}
use wineberry_discord.Events.Dispatch.{
  EventData, winecord_ready, winecord_application_command_permissions,
  winecord_auto_moderation_rule, winecord_auto_moderation_action_execution, winecord_channel,
  winecord_channel_pins_update, winecord_thread_list_sync, winecord_thread_member,
  winecord_thread_members_update, winecord_guild, winecord_guild_ban_add, winecord_guild_ban_remove,
  winecord_guild_emojis_update, winecord_guild_stickers_update, winecord_guild_integrations_update,
  winecord_guild_member, winecord_guild_member_update, winecord_guild_member_remove,
  winecord_guild_members_chunk, winecord_guild_role_create, winecord_guild_role_update,
  winecord_guild_role_delete, winecord_guild_scheduled_event,
  winecord_guild_scheduled_event_user_add, winecord_guild_scheduled_event_user_remove,
  winecord_integration, winecord_integration_delete, winecord_interaction, winecord_invite_create,
  winecord_invite_delete, winecord_message, winecord_message_delete, winecord_message_delete_bulk,
  winecord_message_reaction_add, winecord_message_reaction_remove,
  winecord_message_reaction_remove_all, winecord_message_reaction_remove_emoji,
  winecord_presence_update, winecord_stage_instance, winecord_typing_start, winecord_user,
  winecord_voice_state, winecord_voice_server_update, winecord_webhooks_update, dispatch_table,
  entry_at,
}

-- The struct that the callback of a setter takes.
abbrev pub parameter : Setter → EventData
parameter on_ready = winecord_ready
parameter on_application_command_permissions_update = winecord_application_command_permissions
parameter on_auto_moderation_rule_create = winecord_auto_moderation_rule
parameter on_auto_moderation_rule_update = winecord_auto_moderation_rule
parameter on_auto_moderation_rule_delete = winecord_auto_moderation_rule
parameter on_auto_moderation_action_execution = winecord_auto_moderation_action_execution
parameter on_channel_create = winecord_channel
parameter on_channel_update = winecord_channel
parameter on_channel_delete = winecord_channel
parameter on_channel_pins_update = winecord_channel_pins_update
parameter on_thread_create = winecord_channel
parameter on_thread_update = winecord_channel
parameter on_thread_delete = winecord_channel
parameter on_thread_list_sync = winecord_thread_list_sync
parameter on_thread_member_update = winecord_thread_member
parameter on_thread_members_update = winecord_thread_members_update
parameter on_guild_create = winecord_guild
parameter on_guild_update = winecord_guild
parameter on_guild_delete = winecord_guild
parameter on_guild_ban_add = winecord_guild_ban_add
parameter on_guild_ban_remove = winecord_guild_ban_remove
parameter on_guild_emojis_update = winecord_guild_emojis_update
parameter on_guild_stickers_update = winecord_guild_stickers_update
parameter on_guild_integrations_update = winecord_guild_integrations_update
parameter on_guild_member_add = winecord_guild_member
parameter on_guild_member_update = winecord_guild_member_update
parameter on_guild_member_remove = winecord_guild_member_remove
parameter on_guild_members_chunk = winecord_guild_members_chunk
parameter on_guild_role_create = winecord_guild_role_create
parameter on_guild_role_update = winecord_guild_role_update
parameter on_guild_role_delete = winecord_guild_role_delete
parameter on_guild_scheduled_event_create = winecord_guild_scheduled_event
parameter on_guild_scheduled_event_update = winecord_guild_scheduled_event
parameter on_guild_scheduled_event_delete = winecord_guild_scheduled_event
parameter on_guild_scheduled_event_user_add = winecord_guild_scheduled_event_user_add
parameter on_guild_scheduled_event_user_remove = winecord_guild_scheduled_event_user_remove
parameter on_integration_create = winecord_integration
parameter on_integration_update = winecord_integration
parameter on_integration_delete = winecord_integration_delete
parameter on_interaction_create = winecord_interaction
parameter on_invite_create = winecord_invite_create
parameter on_invite_delete = winecord_invite_delete
parameter on_message_create = winecord_message
parameter on_message_update = winecord_message
parameter on_message_delete = winecord_message_delete
parameter on_message_delete_bulk = winecord_message_delete_bulk
parameter on_message_reaction_add = winecord_message_reaction_add
parameter on_message_reaction_remove = winecord_message_reaction_remove
parameter on_message_reaction_remove_all = winecord_message_reaction_remove_all
parameter on_message_reaction_remove_emoji = winecord_message_reaction_remove_emoji
parameter on_presence_update = winecord_presence_update
parameter on_stage_instance_create = winecord_stage_instance
parameter on_stage_instance_update = winecord_stage_instance
parameter on_stage_instance_delete = winecord_stage_instance
parameter on_typing_start = winecord_typing_start
parameter on_user_update = winecord_user
parameter on_voice_state_update = winecord_voice_state
parameter on_voice_server_update = winecord_voice_server_update
parameter on_webhooks_update = winecord_webhooks_update

pub entry_at-event_of :
    (s : Setter) → entry_at dispatch_table (place (event_of s)) ≡ some (parameter s)
unfolding dispatch_table
entry_at-event_of on_ready = refl
entry_at-event_of _ = refl
