-- ===== src/Events/Setters.antt =====
-- winecord-events.c: a setter for each event.
pub mod Calls
pub mod History
use wineberry_discord.Prelude.{ℕ, Bool, [], ◌∷◌, Option}
use wineberry_discord.Gateway.{
  ready, application_command_permissions_update, auto_moderation_rule_create,
  auto_moderation_rule_update, auto_moderation_rule_delete, auto_moderation_action_execution,
  channel_create, channel_update, channel_delete, channel_pins_update, thread_create, thread_update,
  thread_delete, thread_list_sync, thread_member_update, thread_members_update, guild_create,
  guild_update, guild_delete, guild_ban_add, guild_ban_remove, guild_emojis_update,
  guild_stickers_update, guild_integrations_update, guild_member_add, guild_member_update,
  guild_member_remove, guild_members_chunk, guild_role_create, guild_role_update, guild_role_delete,
  guild_scheduled_event_create, guild_scheduled_event_update, guild_scheduled_event_delete,
  guild_scheduled_event_user_add, guild_scheduled_event_user_remove, integration_create,
  integration_update, integration_delete, interaction_create, invite_create, invite_delete,
  message_create, message_update, message_delete, message_delete_bulk, message_reaction_add,
  message_reaction_remove, message_reaction_remove_all, message_reaction_remove_emoji,
  presence_update, stage_instance_create, stage_instance_update, stage_instance_delete,
  typing_start, user_update, voice_state_update, voice_server_update, webhooks_update,
}
use wineberry_discord.Events.{
  Handlers, assign_cb, add_intents, auto_moderation_configuration, auto_moderation_execution,
  guilds, direct_messages, guild_members, guild_bans, guild_emojis_and_stickers, guild_integrations,
  guild_scheduled_events, guild_invites, guild_messages, guild_message_reactions,
  direct_message_reactions, guild_presences, guild_message_typing, direct_message_typing,
  guild_voice_states, guild_webhooks,
}

abbrev pub set_on_ready : Bool → Option ℕ → Handlers → Handlers
set_on_ready connected cb h = assign_cb ready cb h

abbrev pub set_on_application_command_permissions_update : Bool → Option ℕ → Handlers → Handlers
set_on_application_command_permissions_update connected cb h =
    assign_cb application_command_permissions_update cb h

abbrev pub set_on_auto_moderation_rule_create : Bool → Option ℕ → Handlers → Handlers
set_on_auto_moderation_rule_create connected cb h =
    add_intents connected (auto_moderation_configuration ∷ [])
      (assign_cb auto_moderation_rule_create cb h)

abbrev pub set_on_auto_moderation_rule_update : Bool → Option ℕ → Handlers → Handlers
set_on_auto_moderation_rule_update connected cb h =
    add_intents connected (auto_moderation_configuration ∷ [])
      (assign_cb auto_moderation_rule_update cb h)

abbrev pub set_on_auto_moderation_rule_delete : Bool → Option ℕ → Handlers → Handlers
set_on_auto_moderation_rule_delete connected cb h =
    add_intents connected (auto_moderation_configuration ∷ [])
      (assign_cb auto_moderation_rule_delete cb h)

abbrev pub set_on_auto_moderation_action_execution : Bool → Option ℕ → Handlers → Handlers
set_on_auto_moderation_action_execution connected cb h =
    add_intents connected (auto_moderation_execution ∷ [])
      (assign_cb auto_moderation_action_execution cb h)

abbrev pub set_on_channel_create : Bool → Option ℕ → Handlers → Handlers
set_on_channel_create connected cb h =
    add_intents connected (guilds ∷ []) (assign_cb channel_create cb h)

abbrev pub set_on_channel_update : Bool → Option ℕ → Handlers → Handlers
set_on_channel_update connected cb h =
    add_intents connected (guilds ∷ []) (assign_cb channel_update cb h)

abbrev pub set_on_channel_delete : Bool → Option ℕ → Handlers → Handlers
set_on_channel_delete connected cb h =
    add_intents connected (guilds ∷ []) (assign_cb channel_delete cb h)

abbrev pub set_on_channel_pins_update : Bool → Option ℕ → Handlers → Handlers
set_on_channel_pins_update connected cb h =
    add_intents connected (guilds ∷ direct_messages ∷ []) (assign_cb channel_pins_update cb h)

abbrev pub set_on_thread_create : Bool → Option ℕ → Handlers → Handlers
set_on_thread_create connected cb h =
    add_intents connected (guilds ∷ []) (assign_cb thread_create cb h)

abbrev pub set_on_thread_update : Bool → Option ℕ → Handlers → Handlers
set_on_thread_update connected cb h =
    add_intents connected (guilds ∷ []) (assign_cb thread_update cb h)

abbrev pub set_on_thread_delete : Bool → Option ℕ → Handlers → Handlers
set_on_thread_delete connected cb h =
    add_intents connected (guilds ∷ []) (assign_cb thread_delete cb h)

abbrev pub set_on_thread_list_sync : Bool → Option ℕ → Handlers → Handlers
set_on_thread_list_sync connected cb h =
    add_intents connected (guilds ∷ []) (assign_cb thread_list_sync cb h)

abbrev pub set_on_thread_member_update : Bool → Option ℕ → Handlers → Handlers
set_on_thread_member_update connected cb h =
    add_intents connected (guilds ∷ []) (assign_cb thread_member_update cb h)

abbrev pub set_on_thread_members_update : Bool → Option ℕ → Handlers → Handlers
set_on_thread_members_update connected cb h =
    add_intents connected (guilds ∷ guild_members ∷ []) (assign_cb thread_members_update cb h)

abbrev pub set_on_guild_create : Bool → Option ℕ → Handlers → Handlers
set_on_guild_create connected cb h =
    add_intents connected (guilds ∷ []) (assign_cb guild_create cb h)

abbrev pub set_on_guild_update : Bool → Option ℕ → Handlers → Handlers
set_on_guild_update connected cb h =
    add_intents connected (guilds ∷ []) (assign_cb guild_update cb h)

abbrev pub set_on_guild_delete : Bool → Option ℕ → Handlers → Handlers
set_on_guild_delete connected cb h =
    add_intents connected (guilds ∷ []) (assign_cb guild_delete cb h)

abbrev pub set_on_guild_ban_add : Bool → Option ℕ → Handlers → Handlers
set_on_guild_ban_add connected cb h =
    add_intents connected (guild_bans ∷ []) (assign_cb guild_ban_add cb h)

abbrev pub set_on_guild_ban_remove : Bool → Option ℕ → Handlers → Handlers
set_on_guild_ban_remove connected cb h =
    add_intents connected (guild_bans ∷ []) (assign_cb guild_ban_remove cb h)

abbrev pub set_on_guild_emojis_update : Bool → Option ℕ → Handlers → Handlers
set_on_guild_emojis_update connected cb h =
    add_intents connected (guild_emojis_and_stickers ∷ []) (assign_cb guild_emojis_update cb h)

abbrev pub set_on_guild_stickers_update : Bool → Option ℕ → Handlers → Handlers
set_on_guild_stickers_update connected cb h =
    add_intents connected (guild_emojis_and_stickers ∷ []) (assign_cb guild_stickers_update cb h)

abbrev pub set_on_guild_integrations_update : Bool → Option ℕ → Handlers → Handlers
set_on_guild_integrations_update connected cb h =
    add_intents connected (guild_integrations ∷ []) (assign_cb guild_integrations_update cb h)

abbrev pub set_on_guild_member_add : Bool → Option ℕ → Handlers → Handlers
set_on_guild_member_add connected cb h =
    add_intents connected (guild_members ∷ []) (assign_cb guild_member_add cb h)

abbrev pub set_on_guild_member_update : Bool → Option ℕ → Handlers → Handlers
set_on_guild_member_update connected cb h =
    add_intents connected (guild_members ∷ []) (assign_cb guild_member_update cb h)

abbrev pub set_on_guild_member_remove : Bool → Option ℕ → Handlers → Handlers
set_on_guild_member_remove connected cb h =
    add_intents connected (guild_members ∷ []) (assign_cb guild_member_remove cb h)

abbrev pub set_on_guild_members_chunk : Bool → Option ℕ → Handlers → Handlers
set_on_guild_members_chunk connected cb h = assign_cb guild_members_chunk cb h

abbrev pub set_on_guild_role_create : Bool → Option ℕ → Handlers → Handlers
set_on_guild_role_create connected cb h =
    add_intents connected (guilds ∷ []) (assign_cb guild_role_create cb h)

abbrev pub set_on_guild_role_update : Bool → Option ℕ → Handlers → Handlers
set_on_guild_role_update connected cb h =
    add_intents connected (guilds ∷ []) (assign_cb guild_role_update cb h)

abbrev pub set_on_guild_role_delete : Bool → Option ℕ → Handlers → Handlers
set_on_guild_role_delete connected cb h =
    add_intents connected (guilds ∷ []) (assign_cb guild_role_delete cb h)

abbrev pub set_on_guild_scheduled_event_create : Bool → Option ℕ → Handlers → Handlers
set_on_guild_scheduled_event_create connected cb h =
    add_intents connected (guild_scheduled_events ∷ [])
      (assign_cb guild_scheduled_event_create cb h)

abbrev pub set_on_guild_scheduled_event_update : Bool → Option ℕ → Handlers → Handlers
set_on_guild_scheduled_event_update connected cb h =
    add_intents connected (guild_scheduled_events ∷ [])
      (assign_cb guild_scheduled_event_update cb h)

abbrev pub set_on_guild_scheduled_event_delete : Bool → Option ℕ → Handlers → Handlers
set_on_guild_scheduled_event_delete connected cb h =
    add_intents connected (guild_scheduled_events ∷ [])
      (assign_cb guild_scheduled_event_delete cb h)

abbrev pub set_on_guild_scheduled_event_user_add : Bool → Option ℕ → Handlers → Handlers
set_on_guild_scheduled_event_user_add connected cb h =
    add_intents connected (guild_scheduled_events ∷ [])
      (assign_cb guild_scheduled_event_user_add cb h)

abbrev pub set_on_guild_scheduled_event_user_remove : Bool → Option ℕ → Handlers → Handlers
set_on_guild_scheduled_event_user_remove connected cb h =
    add_intents connected (guild_scheduled_events ∷ [])
      (assign_cb guild_scheduled_event_user_remove cb h)

abbrev pub set_on_integration_create : Bool → Option ℕ → Handlers → Handlers
set_on_integration_create connected cb h =
    add_intents connected (guild_integrations ∷ []) (assign_cb integration_create cb h)

abbrev pub set_on_integration_update : Bool → Option ℕ → Handlers → Handlers
set_on_integration_update connected cb h =
    add_intents connected (guild_integrations ∷ []) (assign_cb integration_update cb h)

abbrev pub set_on_integration_delete : Bool → Option ℕ → Handlers → Handlers
set_on_integration_delete connected cb h =
    add_intents connected (guild_integrations ∷ []) (assign_cb integration_delete cb h)

abbrev pub set_on_interaction_create : Bool → Option ℕ → Handlers → Handlers
set_on_interaction_create connected cb h = assign_cb interaction_create cb h

abbrev pub set_on_invite_create : Bool → Option ℕ → Handlers → Handlers
set_on_invite_create connected cb h =
    add_intents connected (guild_invites ∷ []) (assign_cb invite_create cb h)

abbrev pub set_on_invite_delete : Bool → Option ℕ → Handlers → Handlers
set_on_invite_delete connected cb h =
    add_intents connected (guild_invites ∷ []) (assign_cb invite_delete cb h)

abbrev pub set_on_message_create : Bool → Option ℕ → Handlers → Handlers
set_on_message_create connected cb h =
    add_intents connected (guild_messages ∷ direct_messages ∷ []) (assign_cb message_create cb h)

abbrev pub set_on_message_update : Bool → Option ℕ → Handlers → Handlers
set_on_message_update connected cb h =
    add_intents connected (guild_messages ∷ direct_messages ∷ []) (assign_cb message_update cb h)

abbrev pub set_on_message_delete : Bool → Option ℕ → Handlers → Handlers
set_on_message_delete connected cb h =
    add_intents connected (guild_messages ∷ direct_messages ∷ []) (assign_cb message_delete cb h)

abbrev pub set_on_message_delete_bulk : Bool → Option ℕ → Handlers → Handlers
set_on_message_delete_bulk connected cb h =
    add_intents connected (guild_messages ∷ []) (assign_cb message_delete_bulk cb h)

abbrev pub set_on_message_reaction_add : Bool → Option ℕ → Handlers → Handlers
set_on_message_reaction_add connected cb h =
    add_intents connected (guild_message_reactions ∷ direct_message_reactions ∷ [])
      (assign_cb message_reaction_add cb h)

abbrev pub set_on_message_reaction_remove : Bool → Option ℕ → Handlers → Handlers
set_on_message_reaction_remove connected cb h =
    add_intents connected (guild_message_reactions ∷ direct_message_reactions ∷ [])
      (assign_cb message_reaction_remove cb h)

abbrev pub set_on_message_reaction_remove_all : Bool → Option ℕ → Handlers → Handlers
set_on_message_reaction_remove_all connected cb h =
    add_intents connected (guild_message_reactions ∷ direct_message_reactions ∷ [])
      (assign_cb message_reaction_remove_all cb h)

abbrev pub set_on_message_reaction_remove_emoji : Bool → Option ℕ → Handlers → Handlers
set_on_message_reaction_remove_emoji connected cb h =
    add_intents connected (guild_message_reactions ∷ direct_message_reactions ∷ [])
      (assign_cb message_reaction_remove_emoji cb h)

abbrev pub set_on_presence_update : Bool → Option ℕ → Handlers → Handlers
set_on_presence_update connected cb h =
    add_intents connected (guild_presences ∷ []) (assign_cb presence_update cb h)

abbrev pub set_on_stage_instance_create : Bool → Option ℕ → Handlers → Handlers
set_on_stage_instance_create connected cb h =
    add_intents connected (guilds ∷ []) (assign_cb stage_instance_create cb h)

abbrev pub set_on_stage_instance_update : Bool → Option ℕ → Handlers → Handlers
set_on_stage_instance_update connected cb h =
    add_intents connected (guilds ∷ []) (assign_cb stage_instance_update cb h)

abbrev pub set_on_stage_instance_delete : Bool → Option ℕ → Handlers → Handlers
set_on_stage_instance_delete connected cb h =
    add_intents connected (guilds ∷ []) (assign_cb stage_instance_delete cb h)

abbrev pub set_on_typing_start : Bool → Option ℕ → Handlers → Handlers
set_on_typing_start connected cb h =
    add_intents connected (guild_message_typing ∷ direct_message_typing ∷ [])
      (assign_cb typing_start cb h)

abbrev pub set_on_user_update : Bool → Option ℕ → Handlers → Handlers
set_on_user_update connected cb h = assign_cb user_update cb h

abbrev pub set_on_voice_state_update : Bool → Option ℕ → Handlers → Handlers
set_on_voice_state_update connected cb h =
    add_intents connected (guild_voice_states ∷ []) (assign_cb voice_state_update cb h)

abbrev pub set_on_voice_server_update : Bool → Option ℕ → Handlers → Handlers
set_on_voice_server_update connected cb h =
    add_intents connected (guild_voice_states ∷ []) (assign_cb voice_server_update cb h)

abbrev pub set_on_webhooks_update : Bool → Option ℕ → Handlers → Handlers
set_on_webhooks_update connected cb h =
    add_intents connected (guild_webhooks ∷ []) (assign_cb webhooks_update cb h)
