-- ===== src/Events/Setters/Calls.antt =====
-- winecord-events.c: the calls of the setters.
use wineberry_discord.Prelude.{ℕ, Bool, Option}
use wineberry_discord.Gateway.{
  GatewayEvent, ready, application_command_permissions_update, auto_moderation_rule_create,
  auto_moderation_rule_update, auto_moderation_rule_delete, auto_moderation_action_execution,
  channel_create, channel_update, channel_delete, channel_pins_update, thread_create, thread_update,
  thread_delete, thread_list_sync, thread_member_update, thread_members_update, guild_create,
  guild_update, guild_delete, guild_ban_add, guild_ban_remove, guild_emojis_update,
  guild_stickers_update, guild_integrations_update, guild_member_add, guild_member_update,
  guild_member_remove, guild_members_chunk, guild_role_create, guild_role_update, guild_role_delete,
  guild_scheduled_event_create, guild_scheduled_event_update, guild_scheduled_event_delete,
  guild_scheduled_event_user_add, guild_scheduled_event_user_remove, integration_create,
  integration_update, integration_delete, interaction_create, invite_create, invite_delete,
  message_create, message_update, message_delete, message_delete_bulk, message_reaction_add,
  message_reaction_remove, message_reaction_remove_all, message_reaction_remove_emoji,
  presence_update, stage_instance_create, stage_instance_update, stage_instance_delete,
  typing_start, user_update, voice_state_update, voice_server_update, webhooks_update,
}
use wineberry_discord.Events.{Handlers}
use wineberry_discord.Events.Setters

-- A setter, by the name of its event.
pub data Setter : Type 0 where
  on_ready on_application_command_permissions_update on_auto_moderation_rule_create : Setter
  on_auto_moderation_rule_update on_auto_moderation_rule_delete : Setter
  on_auto_moderation_action_execution on_channel_create on_channel_update : Setter
  on_channel_delete on_channel_pins_update on_thread_create on_thread_update : Setter
  on_thread_delete on_thread_list_sync on_thread_member_update on_thread_members_update : Setter
  on_guild_create on_guild_update on_guild_delete on_guild_ban_add on_guild_ban_remove : Setter
  on_guild_emojis_update on_guild_stickers_update on_guild_integrations_update : Setter
  on_guild_member_add on_guild_member_update on_guild_member_remove : Setter
  on_guild_members_chunk on_guild_role_create on_guild_role_update on_guild_role_delete : Setter
  on_guild_scheduled_event_create on_guild_scheduled_event_update : Setter
  on_guild_scheduled_event_delete on_guild_scheduled_event_user_add : Setter
  on_guild_scheduled_event_user_remove on_integration_create on_integration_update : Setter
  on_integration_delete on_interaction_create on_invite_create on_invite_delete : Setter
  on_message_create on_message_update on_message_delete on_message_delete_bulk : Setter
  on_message_reaction_add on_message_reaction_remove on_message_reaction_remove_all : Setter
  on_message_reaction_remove_emoji on_presence_update on_stage_instance_create : Setter
  on_stage_instance_update on_stage_instance_delete on_typing_start on_user_update : Setter
  on_voice_state_update on_voice_server_update on_webhooks_update : Setter

abbrev pub event_of : Setter → GatewayEvent
event_of on_ready = ready
event_of on_application_command_permissions_update = application_command_permissions_update
event_of on_auto_moderation_rule_create = auto_moderation_rule_create
event_of on_auto_moderation_rule_update = auto_moderation_rule_update
event_of on_auto_moderation_rule_delete = auto_moderation_rule_delete
event_of on_auto_moderation_action_execution = auto_moderation_action_execution
event_of on_channel_create = channel_create
event_of on_channel_update = channel_update
event_of on_channel_delete = channel_delete
event_of on_channel_pins_update = channel_pins_update
event_of on_thread_create = thread_create
event_of on_thread_update = thread_update
event_of on_thread_delete = thread_delete
event_of on_thread_list_sync = thread_list_sync
event_of on_thread_member_update = thread_member_update
event_of on_thread_members_update = thread_members_update
event_of on_guild_create = guild_create
event_of on_guild_update = guild_update
event_of on_guild_delete = guild_delete
event_of on_guild_ban_add = guild_ban_add
event_of on_guild_ban_remove = guild_ban_remove
event_of on_guild_emojis_update = guild_emojis_update
event_of on_guild_stickers_update = guild_stickers_update
event_of on_guild_integrations_update = guild_integrations_update
event_of on_guild_member_add = guild_member_add
event_of on_guild_member_update = guild_member_update
event_of on_guild_member_remove = guild_member_remove
event_of on_guild_members_chunk = guild_members_chunk
event_of on_guild_role_create = guild_role_create
event_of on_guild_role_update = guild_role_update
event_of on_guild_role_delete = guild_role_delete
event_of on_guild_scheduled_event_create = guild_scheduled_event_create
event_of on_guild_scheduled_event_update = guild_scheduled_event_update
event_of on_guild_scheduled_event_delete = guild_scheduled_event_delete
event_of on_guild_scheduled_event_user_add = guild_scheduled_event_user_add
event_of on_guild_scheduled_event_user_remove = guild_scheduled_event_user_remove
event_of on_integration_create = integration_create
event_of on_integration_update = integration_update
event_of on_integration_delete = integration_delete
event_of on_interaction_create = interaction_create
event_of on_invite_create = invite_create
event_of on_invite_delete = invite_delete
event_of on_message_create = message_create
event_of on_message_update = message_update
event_of on_message_delete = message_delete
event_of on_message_delete_bulk = message_delete_bulk
event_of on_message_reaction_add = message_reaction_add
event_of on_message_reaction_remove = message_reaction_remove
event_of on_message_reaction_remove_all = message_reaction_remove_all
event_of on_message_reaction_remove_emoji = message_reaction_remove_emoji
event_of on_presence_update = presence_update
event_of on_stage_instance_create = stage_instance_create
event_of on_stage_instance_update = stage_instance_update
event_of on_stage_instance_delete = stage_instance_delete
event_of on_typing_start = typing_start
event_of on_user_update = user_update
event_of on_voice_state_update = voice_state_update
event_of on_voice_server_update = voice_server_update
event_of on_webhooks_update = webhooks_update

abbrev pub call_setter : Setter → Bool → Option ℕ → Handlers → Handlers
call_setter on_ready = Setters.set_on_ready
call_setter on_application_command_permissions_update =
    Setters.set_on_application_command_permissions_update
call_setter on_auto_moderation_rule_create = Setters.set_on_auto_moderation_rule_create
call_setter on_auto_moderation_rule_update = Setters.set_on_auto_moderation_rule_update
call_setter on_auto_moderation_rule_delete = Setters.set_on_auto_moderation_rule_delete
call_setter on_auto_moderation_action_execution = Setters.set_on_auto_moderation_action_execution
call_setter on_channel_create = Setters.set_on_channel_create
call_setter on_channel_update = Setters.set_on_channel_update
call_setter on_channel_delete = Setters.set_on_channel_delete
call_setter on_channel_pins_update = Setters.set_on_channel_pins_update
call_setter on_thread_create = Setters.set_on_thread_create
call_setter on_thread_update = Setters.set_on_thread_update
call_setter on_thread_delete = Setters.set_on_thread_delete
call_setter on_thread_list_sync = Setters.set_on_thread_list_sync
call_setter on_thread_member_update = Setters.set_on_thread_member_update
call_setter on_thread_members_update = Setters.set_on_thread_members_update
call_setter on_guild_create = Setters.set_on_guild_create
call_setter on_guild_update = Setters.set_on_guild_update
call_setter on_guild_delete = Setters.set_on_guild_delete
call_setter on_guild_ban_add = Setters.set_on_guild_ban_add
call_setter on_guild_ban_remove = Setters.set_on_guild_ban_remove
call_setter on_guild_emojis_update = Setters.set_on_guild_emojis_update
call_setter on_guild_stickers_update = Setters.set_on_guild_stickers_update
call_setter on_guild_integrations_update = Setters.set_on_guild_integrations_update
call_setter on_guild_member_add = Setters.set_on_guild_member_add
call_setter on_guild_member_update = Setters.set_on_guild_member_update
call_setter on_guild_member_remove = Setters.set_on_guild_member_remove
call_setter on_guild_members_chunk = Setters.set_on_guild_members_chunk
call_setter on_guild_role_create = Setters.set_on_guild_role_create
call_setter on_guild_role_update = Setters.set_on_guild_role_update
call_setter on_guild_role_delete = Setters.set_on_guild_role_delete
call_setter on_guild_scheduled_event_create = Setters.set_on_guild_scheduled_event_create
call_setter on_guild_scheduled_event_update = Setters.set_on_guild_scheduled_event_update
call_setter on_guild_scheduled_event_delete = Setters.set_on_guild_scheduled_event_delete
call_setter on_guild_scheduled_event_user_add = Setters.set_on_guild_scheduled_event_user_add
call_setter on_guild_scheduled_event_user_remove = Setters.set_on_guild_scheduled_event_user_remove
call_setter on_integration_create = Setters.set_on_integration_create
call_setter on_integration_update = Setters.set_on_integration_update
call_setter on_integration_delete = Setters.set_on_integration_delete
call_setter on_interaction_create = Setters.set_on_interaction_create
call_setter on_invite_create = Setters.set_on_invite_create
call_setter on_invite_delete = Setters.set_on_invite_delete
call_setter on_message_create = Setters.set_on_message_create
call_setter on_message_update = Setters.set_on_message_update
call_setter on_message_delete = Setters.set_on_message_delete
call_setter on_message_delete_bulk = Setters.set_on_message_delete_bulk
call_setter on_message_reaction_add = Setters.set_on_message_reaction_add
call_setter on_message_reaction_remove = Setters.set_on_message_reaction_remove
call_setter on_message_reaction_remove_all = Setters.set_on_message_reaction_remove_all
call_setter on_message_reaction_remove_emoji = Setters.set_on_message_reaction_remove_emoji
call_setter on_presence_update = Setters.set_on_presence_update
call_setter on_stage_instance_create = Setters.set_on_stage_instance_create
call_setter on_stage_instance_update = Setters.set_on_stage_instance_update
call_setter on_stage_instance_delete = Setters.set_on_stage_instance_delete
call_setter on_typing_start = Setters.set_on_typing_start
call_setter on_user_update = Setters.set_on_user_update
call_setter on_voice_state_update = Setters.set_on_voice_state_update
call_setter on_voice_server_update = Setters.set_on_voice_server_update
call_setter on_webhooks_update = Setters.set_on_webhooks_update
