-- ===== src/Events/Dispatch.antt =====
-- source/wineberry/discord/winecord-gateway_dispatch.c: an event of the gateway, on its way to the
-- callbacks. `d` is the address that calloc returned for the data of the event. The table of the
-- cleanups belongs to generated code: a cleanup is a number, by the struct that it cleans up. An event
-- that has no entry in the table and yet a callback calls a null pointer: `none`. The JSON of the
-- payload is read by generated code.
pub mod Deliver
pub mod Parameters
pub mod Typed
pub mod Fit
pub mod Released
pub mod Cached
mod Tests
use wineberry_discord.Prelude.{
  ℕ, ◌==◌, ◌++◌, Bool, List, [], ◌∷◌, Option, none, some, if◌then◌else◌,
}
use wineberry_discord.Chash.{Chash}
use wineberry_discord.Rest.{Text, same}
use wineberry_discord.Gateway.{
  GatewayEvent, nothing, ready, application_command_permissions_update, auto_moderation_rule_create,
  auto_moderation_rule_update, auto_moderation_rule_delete, auto_moderation_action_execution,
  channel_create, channel_update, channel_delete, channel_pins_update, thread_create, thread_update,
  thread_delete, thread_list_sync, thread_member_update, thread_members_update, guild_create,
  guild_update, guild_delete, guild_ban_add, guild_ban_remove, guild_emojis_update,
  guild_stickers_update, guild_integrations_update, guild_member_add, guild_member_update,
  guild_member_remove, guild_members_chunk, guild_role_create, guild_role_update, guild_role_delete,
  guild_scheduled_event_create, guild_scheduled_event_update, guild_scheduled_event_delete,
  guild_scheduled_event_user_add, guild_scheduled_event_user_remove, integration_create,
  integration_update, integration_delete, interaction_create, invite_create, invite_delete,
  message_create, message_update, message_delete, message_delete_bulk, message_reaction_add,
  message_reaction_remove, message_reaction_remove_all, message_reaction_remove_emoji,
  presence_update, stage_instance_create, stage_instance_update, stage_instance_delete,
  typing_start, user_update, voice_state_update, voice_server_update, webhooks_update,
}
use wineberry_discord.Refcount.{RefValue, Refcounter, incr, decr, add_internal}
use wineberry_discord.Commands.{Commands, User, is_unavailable, try_perform}
use wineberry_discord.Events.{Handlers, place, add_intents, guilds}

-- The structs that the data of an event may be.
pub data EventData : Type 0 where
  winecord_ready winecord_application_command_permissions : EventData
  winecord_auto_moderation_rule winecord_auto_moderation_action_execution : EventData
  winecord_channel winecord_channel_pins_update winecord_thread_list_sync : EventData
  winecord_thread_member winecord_thread_members_update winecord_guild : EventData
  winecord_guild_ban_add winecord_guild_ban_remove winecord_guild_emojis_update : EventData
  winecord_guild_stickers_update winecord_guild_integrations_update : EventData
  winecord_guild_member winecord_guild_member_update winecord_guild_member_remove : EventData
  winecord_guild_members_chunk winecord_guild_role_create winecord_guild_role_update : EventData
  winecord_guild_role_delete winecord_guild_scheduled_event : EventData
  winecord_guild_scheduled_event_user_add winecord_guild_scheduled_event_user_remove : EventData
  winecord_integration winecord_integration_delete winecord_interaction : EventData
  winecord_invite_create winecord_invite_delete winecord_message : EventData
  winecord_message_delete winecord_message_delete_bulk winecord_message_reaction_add : EventData
  winecord_message_reaction_remove winecord_message_reaction_remove_all : EventData
  winecord_message_reaction_remove_emoji winecord_presence_update : EventData
  winecord_stage_instance winecord_typing_start winecord_user winecord_voice_state : EventData
  winecord_voice_server_update winecord_webhooks_update : EventData

-- `dispatch`
unfoldable pub dispatch_table : List (GatewayEvent × EventData)
dispatch_table =
    (ready, winecord_ready)
    ∷ (application_command_permissions_update, winecord_application_command_permissions)
    ∷ (auto_moderation_rule_create, winecord_auto_moderation_rule)
    ∷ (auto_moderation_rule_update, winecord_auto_moderation_rule)
    ∷ (auto_moderation_rule_delete, winecord_auto_moderation_rule)
    ∷ (auto_moderation_action_execution, winecord_auto_moderation_action_execution)
    ∷ (channel_create, winecord_channel)
    ∷ (channel_update, winecord_channel)
    ∷ (channel_delete, winecord_channel)
    ∷ (channel_pins_update, winecord_channel_pins_update)
    ∷ (thread_create, winecord_channel)
    ∷ (thread_update, winecord_channel)
    ∷ (thread_delete, winecord_channel)
    ∷ (thread_list_sync, winecord_thread_list_sync)
    ∷ (thread_member_update, winecord_thread_member)
    ∷ (thread_members_update, winecord_thread_members_update)
    ∷ (guild_create, winecord_guild)
    ∷ (guild_update, winecord_guild)
    ∷ (guild_delete, winecord_guild)
    ∷ (guild_ban_add, winecord_guild_ban_add)
    ∷ (guild_ban_remove, winecord_guild_ban_remove)
    ∷ (guild_emojis_update, winecord_guild_emojis_update)
    ∷ (guild_stickers_update, winecord_guild_stickers_update)
    ∷ (guild_integrations_update, winecord_guild_integrations_update)
    ∷ (guild_member_add, winecord_guild_member)
    ∷ (guild_member_update, winecord_guild_member_update)
    ∷ (guild_member_remove, winecord_guild_member_remove)
    ∷ (guild_members_chunk, winecord_guild_members_chunk)
    ∷ (guild_role_create, winecord_guild_role_create)
    ∷ (guild_role_update, winecord_guild_role_update)
    ∷ (guild_role_delete, winecord_guild_role_delete)
    ∷ (guild_scheduled_event_create, winecord_guild_scheduled_event)
    ∷ (guild_scheduled_event_update, winecord_guild_scheduled_event)
    ∷ (guild_scheduled_event_delete, winecord_guild_scheduled_event)
    ∷ (guild_scheduled_event_user_add, winecord_guild_scheduled_event_user_add)
    ∷ (guild_scheduled_event_user_remove, winecord_guild_scheduled_event_user_remove)
    ∷ (integration_create, winecord_integration)
    ∷ (integration_update, winecord_integration)
    ∷ (integration_delete, winecord_integration_delete)
    ∷ (interaction_create, winecord_interaction)
    ∷ (invite_create, winecord_invite_create)
    ∷ (invite_delete, winecord_invite_delete)
    ∷ (message_create, winecord_message)
    ∷ (message_update, winecord_message)
    ∷ (message_delete, winecord_message_delete)
    ∷ (message_delete_bulk, winecord_message_delete_bulk)
    ∷ (message_reaction_add, winecord_message_reaction_add)
    ∷ (message_reaction_remove, winecord_message_reaction_remove)
    ∷ (message_reaction_remove_all, winecord_message_reaction_remove_all)
    ∷ (message_reaction_remove_emoji, winecord_message_reaction_remove_emoji)
    ∷ (presence_update, winecord_presence_update)
    ∷ (stage_instance_create, winecord_stage_instance)
    ∷ (stage_instance_update, winecord_stage_instance)
    ∷ (stage_instance_delete, winecord_stage_instance)
    ∷ (typing_start, winecord_typing_start)
    ∷ (user_update, winecord_user)
    ∷ (voice_state_update, winecord_voice_state)
    ∷ (voice_server_update, winecord_voice_server_update)
    ∷ (webhooks_update, winecord_webhooks_update)
    ∷ []

abbrev pub entry_at : List (GatewayEvent × EventData) → ℕ → Option EventData
entry_at [] i = none
entry_at ((e, struct) ∷ entries) i = if i == place e then some struct else entry_at entries i

-- The handlers of winecord-cache.c, with the structs that they take.
pub data CacheHandler : Type 0 where
  on_ready on_guild_create on_guild_update on_guild_delete : CacheHandler
  on_message_create on_message_update on_message_delete : CacheHandler

abbrev pub handler_takes : CacheHandler → EventData
handler_takes on_ready = winecord_ready
handler_takes on_guild_create = winecord_guild
handler_takes on_guild_update = winecord_guild
handler_takes on_guild_delete = winecord_guild
handler_takes on_message_create = winecord_message
handler_takes on_message_update = winecord_message
handler_takes on_message_delete = winecord_message_delete

-- `gw->cbs`: the cache's by places, and the user's.
pub record CallbackTables : Type 0 where
  pub cached : ℕ → Option CacheHandler
  pub user : Handlers

-- ASSIGN_CB of winecord-cache.c
abbrev pub assign_cached : GatewayEvent → CacheHandler → CallbackTables → CallbackTables
assign_cached e handler t = record t {
  cached = λ i. if i == place e then some handler else t.cached i;
}

-- The options of `winecord_cache_enable`.
abbrev pub enable_guilds : Bool → CallbackTables → CallbackTables
enable_guilds connected t = assign_cached guild_delete on_guild_delete (
    assign_cached guild_update on_guild_update (
      assign_cached guild_create on_guild_create
        (record t { user = add_intents connected (guilds ∷ []) t.user })))

abbrev pub enable_messages : CallbackTables → CallbackTables
enable_messages t = assign_cached message_delete on_message_delete (
    assign_cached message_update on_message_update
      (assign_cached message_create on_message_create t))

-- What `winecord_cache_enable` does to the tables.
unfoldable pub enable_cbs : Bool → Bool → Bool → CallbackTables → CallbackTables
enable_cbs connected with_guilds with_messages t =
    let t1 = assign_cached ready on_ready t in
    let t2 = if with_guilds then enable_guilds connected t1 else t1 in
    if with_messages then enable_messages t2 else t2
