-- ===== src/Events.antt =====
-- source/wineberry/discord/winecord-events.c: the setters of the callbacks for the events of the gateway.
-- A callback is a number, or a null pointer; `connected` is whether the websocket is. The bits of the
-- intents belong to generated code: an intent has its place in the list here.
pub mod Setters
pub mod Dispatch
mod Tests
use wineberry_discord.Prelude.{
  ℕ, ◌==◌, ◌&&◌, ◌||◌, not, Bool, false, List, [], ◌∷◌, Option, if◌then◌else◌,
}
use wineberry_discord.Gateway.{
  GatewayEvent, nothing, ready, resumed, reconnect, invalid_session,
  application_command_permissions_update, auto_moderation_rule_create, auto_moderation_rule_update,
  auto_moderation_rule_delete, auto_moderation_action_execution, channel_create, channel_update,
  channel_delete, channel_pins_update, thread_create, thread_update, thread_delete,
  thread_list_sync, thread_member_update, thread_members_update, guild_create, guild_update,
  guild_delete, guild_ban_add, guild_ban_remove, guild_emojis_update, guild_stickers_update,
  guild_integrations_update, guild_member_add, guild_member_update, guild_member_remove,
  guild_members_chunk, guild_role_create, guild_role_update, guild_role_delete,
  guild_scheduled_event_create, guild_scheduled_event_update, guild_scheduled_event_delete,
  guild_scheduled_event_user_add, guild_scheduled_event_user_remove, integration_create,
  integration_update, integration_delete, interaction_create, invite_create, invite_delete,
  message_create, message_update, message_delete, message_delete_bulk, message_reaction_add,
  message_reaction_remove, message_reaction_remove_all, message_reaction_remove_emoji,
  presence_update, stage_instance_create, stage_instance_delete, stage_instance_update,
  typing_start, user_update, voice_state_update, voice_server_update, webhooks_update,
}

pub data Intent : Type 0 where
  auto_moderation_configuration auto_moderation_execution guilds direct_messages : Intent
  guild_members guild_bans guild_emojis_and_stickers guild_integrations : Intent
  guild_scheduled_events guild_invites guild_messages guild_message_reactions : Intent
  direct_message_reactions guild_presences guild_message_typing direct_message_typing : Intent
  guild_voice_states guild_webhooks : Intent

-- The places of the intents.
abbrev pub bit : Intent → ℕ
bit auto_moderation_configuration = 0
bit auto_moderation_execution = 1
bit guilds = 2
bit direct_messages = 3
bit guild_members = 4
bit guild_bans = 5
bit guild_emojis_and_stickers = 6
bit guild_integrations = 7
bit guild_scheduled_events = 8
bit guild_invites = 9
bit guild_messages = 10
bit guild_message_reactions = 11
bit direct_message_reactions = 12
bit guild_presences = 13
bit guild_message_typing = 14
bit direct_message_typing = 15
bit guild_voice_states = 16
bit guild_webhooks = 17

-- `enum winecord_gateway_events`, the places of the callbacks
abbrev pub place : GatewayEvent → ℕ
place nothing = 0
place ready = 1
place resumed = 2
place reconnect = 3
place invalid_session = 4
place application_command_permissions_update = 5
place auto_moderation_rule_create = 6
place auto_moderation_rule_update = 7
place auto_moderation_rule_delete = 8
place auto_moderation_action_execution = 9
place channel_create = 10
place channel_update = 11
place channel_delete = 12
place channel_pins_update = 13
place thread_create = 14
place thread_update = 15
place thread_delete = 16
place thread_list_sync = 17
place thread_member_update = 18
place thread_members_update = 19
place guild_create = 20
place guild_update = 21
place guild_delete = 22
place guild_ban_add = 23
place guild_ban_remove = 24
place guild_emojis_update = 25
place guild_stickers_update = 26
place guild_integrations_update = 27
place guild_member_add = 28
place guild_member_remove = 29
place guild_member_update = 30
place guild_members_chunk = 31
place guild_role_create = 32
place guild_role_update = 33
place guild_role_delete = 34
place guild_scheduled_event_create = 35
place guild_scheduled_event_update = 36
place guild_scheduled_event_delete = 37
place guild_scheduled_event_user_add = 38
place guild_scheduled_event_user_remove = 39
place integration_create = 40
place integration_update = 41
place integration_delete = 42
place interaction_create = 43
place invite_create = 44
place invite_delete = 45
place message_create = 46
place message_update = 47
place message_delete = 48
place message_delete_bulk = 49
place message_reaction_add = 50
place message_reaction_remove = 51
place message_reaction_remove_all = 52
place message_reaction_remove_emoji = 53
place presence_update = 54
place stage_instance_create = 55
place stage_instance_delete = 56
place stage_instance_update = 57
place typing_start = 58
place user_update = 59
place voice_state_update = 60
place voice_server_update = 61
place webhooks_update = 62

-- `client->gw.cbs[1]` by places, and `client->gw.id.intents` by bits.
pub record Handlers : Type 0 where
  pub cbs : ℕ → Option ℕ
  pub intents : ℕ → Bool

-- ASSIGN_CB
abbrev pub assign_cb : GatewayEvent → Option ℕ → Handlers → Handlers
assign_cb e cb h = record h { cbs = λ i. if i == place e then cb else h.cbs i }

abbrev pub has_bit : ℕ → List Intent → Bool
has_bit i [] = false
has_bit i (x ∷ xs) = i == bit x || has_bit i xs

abbrev pub add_intents : Bool → List Intent → Handlers → Handlers
add_intents connected code h =
    if connected then h else record h { intents = λ i. h.intents i || has_bit i code }

abbrev pub remove_intents : Bool → List Intent → Handlers → Handlers
remove_intents connected code h =
    if connected then h else record h { intents = λ i. h.intents i && not (has_bit i code) }
