-- ===== src/Gateway/Event.antt =====
-- winecord-gateway.c, `_winecord_gateway_event_eval` and the part of
-- `_winecord_gateway_payload_from_json` that reads the field "t": the name of a dispatch event and
-- its enumerator.
use Prim.Native.String.{String}
use wineberry_discord.Prelude.{
  ℕ, ◌≡◌, refl, ◌==◌, Bool, true, false, ◌&&◌, List, [], ◌∷◌, length, take, leb, if◌then◌else◌, ◌-◌,
}
use wineberry_discord.Prelude.Texts.{codes}
use wineberry_discord.Gateway.{
  Text, GatewayEvent, nothing, ready, resumed, reconnect, invalid_session,
  application_command_permissions_update, auto_moderation_rule_create, auto_moderation_rule_update,
  auto_moderation_rule_delete, auto_moderation_action_execution, channel_create, channel_update,
  channel_delete, channel_pins_update, thread_create, thread_update, thread_delete,
  thread_list_sync, thread_member_update, thread_members_update, guild_create, guild_update,
  guild_delete, guild_ban_add, guild_ban_remove, guild_emojis_update, guild_stickers_update,
  guild_integrations_update, guild_member_add, guild_member_update, guild_member_remove,
  guild_members_chunk, guild_role_create, guild_role_update, guild_role_delete,
  guild_scheduled_event_create, guild_scheduled_event_update, guild_scheduled_event_delete,
  guild_scheduled_event_user_add, guild_scheduled_event_user_remove, integration_create,
  integration_update, integration_delete, interaction_create, invite_create, invite_delete,
  message_create, message_update, message_delete, message_delete_bulk, message_reaction_add,
  message_reaction_remove, message_reaction_remove_all, message_reaction_remove_emoji,
  presence_update, stage_instance_create, stage_instance_delete, stage_instance_update,
  typing_start, user_update, voice_state_update, voice_server_update, webhooks_update,
}

-- `!strcmp(a, b)`
abbrev pub same : Text → Text → Bool
same [] [] = true
same (a ∷ as') (b ∷ bs) = a == b && same as' bs
same _ _ = false

-- The tests of `_winecord_gateway_event_eval`, in order.
abbrev pub event_tests : List (String × GatewayEvent)
event_tests =
    ("READY", ready)
    ∷ ("RESUMED", resumed)
    ∷ ("RECONNECT", reconnect)
    ∷ ("INVALID_SESSION", invalid_session)
    ∷ ("APPLICATION_COMMAND_PERMISSIONS_UPDATE", application_command_permissions_update)
    ∷ ("AUTO_MODERATION_RULE_CREATE", auto_moderation_rule_create)
    ∷ ("AUTO_MODERATION_RULE_UPDATE", auto_moderation_rule_update)
    ∷ ("AUTO_MODERATION_RULE_DELETE", auto_moderation_rule_delete)
    ∷ ("AUTO_MODERATION_ACTION_EXECUTION", auto_moderation_action_execution)
    ∷ ("CHANNEL_CREATE", channel_create)
    ∷ ("CHANNEL_UPDATE", channel_update)
    ∷ ("CHANNEL_DELETE", channel_delete)
    ∷ ("CHANNEL_PINS_UPDATE", channel_pins_update)
    ∷ ("THREAD_CREATE", thread_create)
    ∷ ("THREAD_UPDATE", thread_update)
    ∷ ("THREAD_DELETE", thread_delete)
    ∷ ("THREAD_LIST_SYNC", thread_list_sync)
    ∷ ("THREAD_MEMBER_UPDATE", thread_member_update)
    ∷ ("THREAD_MEMBERS_UPDATE", thread_members_update)
    ∷ ("GUILD_CREATE", guild_create)
    ∷ ("GUILD_UPDATE", guild_update)
    ∷ ("GUILD_DELETE", guild_delete)
    ∷ ("GUILD_BAN_ADD", guild_ban_add)
    ∷ ("GUILD_BAN_REMOVE", guild_ban_remove)
    ∷ ("GUILD_EMOJIS_UPDATE", guild_emojis_update)
    ∷ ("GUILD_STICKERS_UPDATE", guild_stickers_update)
    ∷ ("GUILD_INTEGRATIONS_UPDATE", guild_integrations_update)
    ∷ ("GUILD_MEMBER_ADD", guild_member_add)
    ∷ ("GUILD_MEMBER_UPDATE", guild_member_update)
    ∷ ("GUILD_MEMBER_REMOVE", guild_member_remove)
    ∷ ("GUILD_MEMBERS_CHUNK", guild_members_chunk)
    ∷ ("GUILD_ROLE_CREATE", guild_role_create)
    ∷ ("GUILD_ROLE_UPDATE", guild_role_update)
    ∷ ("GUILD_ROLE_DELETE", guild_role_delete)
    ∷ ("GUILD_SCHEDULED_EVENT_CREATE", guild_scheduled_event_create)
    ∷ ("GUILD_SCHEDULED_EVENT_UPDATE", guild_scheduled_event_update)
    ∷ ("GUILD_SCHEDULED_EVENT_DELETE", guild_scheduled_event_delete)
    ∷ ("GUILD_SCHEDULED_EVENT_USER_ADD", guild_scheduled_event_user_add)
    ∷ ("GUILD_SCHEDULED_EVENT_USER_REMOVE", guild_scheduled_event_user_remove)
    ∷ ("INTEGRATION_CREATE", integration_create)
    ∷ ("INTEGRATION_UPDATE", integration_update)
    ∷ ("INTEGRATION_DELETE", integration_delete)
    ∷ ("INTERACTION_CREATE", interaction_create)
    ∷ ("INVITE_CREATE", invite_create)
    ∷ ("INVITE_DELETE", invite_delete)
    ∷ ("MESSAGE_CREATE", message_create)
    ∷ ("MESSAGE_UPDATE", message_update)
    ∷ ("MESSAGE_DELETE", message_delete)
    ∷ ("MESSAGE_DELETE_BULK", message_delete_bulk)
    ∷ ("MESSAGE_REACTION_ADD", message_reaction_add)
    ∷ ("MESSAGE_REACTION_REMOVE", message_reaction_remove)
    ∷ ("MESSAGE_REACTION_REMOVE_ALL", message_reaction_remove_all)
    ∷ ("MESSAGE_REACTION_REMOVE_EMOJI", message_reaction_remove_emoji)
    ∷ ("PRESENCE_UPDATE", presence_update)
    ∷ ("STAGE_INSTANCE_CREATE", stage_instance_create)
    ∷ ("STAGE_INSTANCE_DELETE", stage_instance_delete)
    ∷ ("STAGE_INSTANCE_UPDATE", stage_instance_update)
    ∷ ("TYPING_START", typing_start)
    ∷ ("USER_UPDATE", user_update)
    ∷ ("VOICE_STATE_UPDATE", voice_state_update)
    ∷ ("VOICE_SERVER_UPDATE", voice_server_update)
    ∷ ("WEBHOOKS_UPDATE", webhooks_update)
    ∷ []

first_match : List (String × GatewayEvent) → Text → GatewayEvent
first_match [] name = nothing
first_match ((s, e) ∷ tests) name = if same (codes s) name then e else first_match tests name

unfoldable pub event_eval : Text → GatewayEvent
unfolding first_match
event_eval name = first_match event_tests name

-- `snprintf(payload->name, sizeof(payload->name), "%.*s", …)` with `char name[32]`.
unfoldable pub name_size : ℕ
name_size = 32

unfoldable pub payload_name : Text → Text
unfolding name_size
payload_name t = take (name_size - 1) t

unfoldable pub payload_event : Text → GatewayEvent
unfolding payload_name event_eval
payload_event t = event_eval (payload_name t)

-- The name that Discord sends for an event.
unfoldable pub event_name : GatewayEvent → String
event_name nothing = ""
event_name ready = "READY"
event_name resumed = "RESUMED"
event_name reconnect = "RECONNECT"
event_name invalid_session = "INVALID_SESSION"
event_name application_command_permissions_update = "APPLICATION_COMMAND_PERMISSIONS_UPDATE"
event_name auto_moderation_rule_create = "AUTO_MODERATION_RULE_CREATE"
event_name auto_moderation_rule_update = "AUTO_MODERATION_RULE_UPDATE"
event_name auto_moderation_rule_delete = "AUTO_MODERATION_RULE_DELETE"
event_name auto_moderation_action_execution = "AUTO_MODERATION_ACTION_EXECUTION"
event_name channel_create = "CHANNEL_CREATE"
event_name channel_update = "CHANNEL_UPDATE"
event_name channel_delete = "CHANNEL_DELETE"
event_name channel_pins_update = "CHANNEL_PINS_UPDATE"
event_name thread_create = "THREAD_CREATE"
event_name thread_update = "THREAD_UPDATE"
event_name thread_delete = "THREAD_DELETE"
event_name thread_list_sync = "THREAD_LIST_SYNC"
event_name thread_member_update = "THREAD_MEMBER_UPDATE"
event_name thread_members_update = "THREAD_MEMBERS_UPDATE"
event_name guild_create = "GUILD_CREATE"
event_name guild_update = "GUILD_UPDATE"
event_name guild_delete = "GUILD_DELETE"
event_name guild_ban_add = "GUILD_BAN_ADD"
event_name guild_ban_remove = "GUILD_BAN_REMOVE"
event_name guild_emojis_update = "GUILD_EMOJIS_UPDATE"
event_name guild_stickers_update = "GUILD_STICKERS_UPDATE"
event_name guild_integrations_update = "GUILD_INTEGRATIONS_UPDATE"
event_name guild_member_add = "GUILD_MEMBER_ADD"
event_name guild_member_update = "GUILD_MEMBER_UPDATE"
event_name guild_member_remove = "GUILD_MEMBER_REMOVE"
event_name guild_members_chunk = "GUILD_MEMBERS_CHUNK"
event_name guild_role_create = "GUILD_ROLE_CREATE"
event_name guild_role_update = "GUILD_ROLE_UPDATE"
event_name guild_role_delete = "GUILD_ROLE_DELETE"
event_name guild_scheduled_event_create = "GUILD_SCHEDULED_EVENT_CREATE"
event_name guild_scheduled_event_update = "GUILD_SCHEDULED_EVENT_UPDATE"
event_name guild_scheduled_event_delete = "GUILD_SCHEDULED_EVENT_DELETE"
event_name guild_scheduled_event_user_add = "GUILD_SCHEDULED_EVENT_USER_ADD"
event_name guild_scheduled_event_user_remove = "GUILD_SCHEDULED_EVENT_USER_REMOVE"
event_name integration_create = "INTEGRATION_CREATE"
event_name integration_update = "INTEGRATION_UPDATE"
event_name integration_delete = "INTEGRATION_DELETE"
event_name interaction_create = "INTERACTION_CREATE"
event_name invite_create = "INVITE_CREATE"
event_name invite_delete = "INVITE_DELETE"
event_name message_create = "MESSAGE_CREATE"
event_name message_update = "MESSAGE_UPDATE"
event_name message_delete = "MESSAGE_DELETE"
event_name message_delete_bulk = "MESSAGE_DELETE_BULK"
event_name message_reaction_add = "MESSAGE_REACTION_ADD"
event_name message_reaction_remove = "MESSAGE_REACTION_REMOVE"
event_name message_reaction_remove_all = "MESSAGE_REACTION_REMOVE_ALL"
event_name message_reaction_remove_emoji = "MESSAGE_REACTION_REMOVE_EMOJI"
event_name presence_update = "PRESENCE_UPDATE"
event_name stage_instance_create = "STAGE_INSTANCE_CREATE"
event_name stage_instance_delete = "STAGE_INSTANCE_DELETE"
event_name stage_instance_update = "STAGE_INSTANCE_UPDATE"
event_name typing_start = "TYPING_START"
event_name user_update = "USER_UPDATE"
event_name voice_state_update = "VOICE_STATE_UPDATE"
event_name voice_server_update = "VOICE_SERVER_UPDATE"
event_name webhooks_update = "WEBHOOKS_UPDATE"

-- The evaluator knows every event by its name.
pub event_eval-event_name : (e : GatewayEvent) → event_eval (codes (event_name e)) ≡ e
unfolding event_eval event_name
event_eval-event_name nothing = refl
event_eval-event_name ready = refl
event_eval-event_name resumed = refl
event_eval-event_name reconnect = refl
event_eval-event_name invalid_session = refl
event_eval-event_name application_command_permissions_update = refl
event_eval-event_name auto_moderation_rule_create = refl
event_eval-event_name auto_moderation_rule_update = refl
event_eval-event_name auto_moderation_rule_delete = refl
event_eval-event_name auto_moderation_action_execution = refl
event_eval-event_name channel_create = refl
event_eval-event_name channel_update = refl
event_eval-event_name channel_delete = refl
event_eval-event_name channel_pins_update = refl
event_eval-event_name thread_create = refl
event_eval-event_name thread_update = refl
event_eval-event_name thread_delete = refl
event_eval-event_name thread_list_sync = refl
event_eval-event_name thread_member_update = refl
event_eval-event_name thread_members_update = refl
event_eval-event_name guild_create = refl
event_eval-event_name guild_update = refl
event_eval-event_name guild_delete = refl
event_eval-event_name guild_ban_add = refl
event_eval-event_name guild_ban_remove = refl
event_eval-event_name guild_emojis_update = refl
event_eval-event_name guild_stickers_update = refl
event_eval-event_name guild_integrations_update = refl
event_eval-event_name guild_member_add = refl
event_eval-event_name guild_member_update = refl
event_eval-event_name guild_member_remove = refl
event_eval-event_name guild_members_chunk = refl
event_eval-event_name guild_role_create = refl
event_eval-event_name guild_role_update = refl
event_eval-event_name guild_role_delete = refl
event_eval-event_name guild_scheduled_event_create = refl
event_eval-event_name guild_scheduled_event_update = refl
event_eval-event_name guild_scheduled_event_delete = refl
event_eval-event_name guild_scheduled_event_user_add = refl
event_eval-event_name guild_scheduled_event_user_remove = refl
event_eval-event_name integration_create = refl
event_eval-event_name integration_update = refl
event_eval-event_name integration_delete = refl
event_eval-event_name interaction_create = refl
event_eval-event_name invite_create = refl
event_eval-event_name invite_delete = refl
event_eval-event_name message_create = refl
event_eval-event_name message_update = refl
event_eval-event_name message_delete = refl
event_eval-event_name message_delete_bulk = refl
event_eval-event_name message_reaction_add = refl
event_eval-event_name message_reaction_remove = refl
event_eval-event_name message_reaction_remove_all = refl
event_eval-event_name message_reaction_remove_emoji = refl
event_eval-event_name presence_update = refl
event_eval-event_name stage_instance_create = refl
event_eval-event_name stage_instance_delete = refl
event_eval-event_name stage_instance_update = refl
event_eval-event_name typing_start = refl
event_eval-event_name user_update = refl
event_eval-event_name voice_state_update = refl
event_eval-event_name voice_server_update = refl
event_eval-event_name webhooks_update = refl

-- A payload's event is the one named, if the name has at most 31 bytes, and WINECORD_EV_NONE for an
-- event with a longer name.
pub payload_event-event_name :
    (e : GatewayEvent)
    → payload_event (codes (event_name e))
      ≡ (if leb (length (codes (event_name e))) 31 then e else nothing)
unfolding payload_event event_name
payload_event-event_name nothing = refl
payload_event-event_name ready = refl
payload_event-event_name resumed = refl
payload_event-event_name reconnect = refl
payload_event-event_name invalid_session = refl
payload_event-event_name application_command_permissions_update = refl
payload_event-event_name auto_moderation_rule_create = refl
payload_event-event_name auto_moderation_rule_update = refl
payload_event-event_name auto_moderation_rule_delete = refl
payload_event-event_name auto_moderation_action_execution = refl
payload_event-event_name channel_create = refl
payload_event-event_name channel_update = refl
payload_event-event_name channel_delete = refl
payload_event-event_name channel_pins_update = refl
payload_event-event_name thread_create = refl
payload_event-event_name thread_update = refl
payload_event-event_name thread_delete = refl
payload_event-event_name thread_list_sync = refl
payload_event-event_name thread_member_update = refl
payload_event-event_name thread_members_update = refl
payload_event-event_name guild_create = refl
payload_event-event_name guild_update = refl
payload_event-event_name guild_delete = refl
payload_event-event_name guild_ban_add = refl
payload_event-event_name guild_ban_remove = refl
payload_event-event_name guild_emojis_update = refl
payload_event-event_name guild_stickers_update = refl
payload_event-event_name guild_integrations_update = refl
payload_event-event_name guild_member_add = refl
payload_event-event_name guild_member_update = refl
payload_event-event_name guild_member_remove = refl
payload_event-event_name guild_members_chunk = refl
payload_event-event_name guild_role_create = refl
payload_event-event_name guild_role_update = refl
payload_event-event_name guild_role_delete = refl
payload_event-event_name guild_scheduled_event_create = refl
payload_event-event_name guild_scheduled_event_update = refl
payload_event-event_name guild_scheduled_event_delete = refl
payload_event-event_name guild_scheduled_event_user_add = refl
payload_event-event_name guild_scheduled_event_user_remove = refl
payload_event-event_name integration_create = refl
payload_event-event_name integration_update = refl
payload_event-event_name integration_delete = refl
payload_event-event_name interaction_create = refl
payload_event-event_name invite_create = refl
payload_event-event_name invite_delete = refl
payload_event-event_name message_create = refl
payload_event-event_name message_update = refl
payload_event-event_name message_delete = refl
payload_event-event_name message_delete_bulk = refl
payload_event-event_name message_reaction_add = refl
payload_event-event_name message_reaction_remove = refl
payload_event-event_name message_reaction_remove_all = refl
payload_event-event_name message_reaction_remove_emoji = refl
payload_event-event_name presence_update = refl
payload_event-event_name stage_instance_create = refl
payload_event-event_name stage_instance_delete = refl
payload_event-event_name stage_instance_update = refl
payload_event-event_name typing_start = refl
payload_event-event_name user_update = refl
payload_event-event_name voice_state_update = refl
payload_event-event_name voice_server_update = refl
payload_event-event_name webhooks_update = refl
