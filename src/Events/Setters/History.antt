-- ===== src/Events/Setters/History.antt =====
-- winecord-events.c: what a history of calls of the setters leaves.
use wineberry_discord.Prelude.{
  ◌||◌, ◌&&◌, not, arith, ℕ, ◌≡◌, ◌==◌, Bool, true, false, List, [], ◌∷◌, Option, if◌then◌else◌,
  refl, ◌∙◌, ap,
}
use wineberry_discord.Gateway.{
  GatewayEvent, auto_moderation_rule_create, auto_moderation_rule_update,
  auto_moderation_rule_delete, auto_moderation_action_execution, channel_create, channel_update,
  channel_delete, channel_pins_update, thread_create, thread_update, thread_delete,
  thread_list_sync, thread_member_update, thread_members_update, guild_create, guild_update,
  guild_delete, guild_ban_add, guild_ban_remove, guild_emojis_update, guild_stickers_update,
  guild_integrations_update, guild_member_add, guild_member_update, guild_member_remove,
  guild_role_create, guild_role_update, guild_role_delete, guild_scheduled_event_create,
  guild_scheduled_event_update, guild_scheduled_event_delete, guild_scheduled_event_user_add,
  guild_scheduled_event_user_remove, integration_create, integration_update, integration_delete,
  invite_create, invite_delete, message_create, message_update, message_delete, message_delete_bulk,
  message_reaction_add, message_reaction_remove, message_reaction_remove_all,
  message_reaction_remove_emoji, presence_update, stage_instance_create, stage_instance_update,
  stage_instance_delete, typing_start, voice_state_update, voice_server_update, webhooks_update,
}
use wineberry_discord.Events.{
  Handlers, place, bit, Intent, auto_moderation_configuration, auto_moderation_execution, guilds,
  direct_messages, guild_members, guild_bans, guild_emojis_and_stickers, guild_integrations,
  guild_scheduled_events, guild_invites, guild_messages, guild_message_reactions,
  direct_message_reactions, guild_presences, guild_message_typing, direct_message_typing,
  guild_voice_states, guild_webhooks,
}
use wineberry_discord.Events.Setters.Calls.{Setter, event_of, call_setter, on_ready}

-- A call of a setter: whether the client is connected, and the callback.
pub record SetterCall : Type 0 where
  pub setter : Setter
  pub connected : Bool
  pub cb : Option ℕ

unfoldable pub run_setters : List SetterCall → Handlers → Handlers
run_setters [] h = h
run_setters (c ∷ cs) h = run_setters cs (call_setter c.setter c.connected c.cb h)

-- The callback of the last call for an event, or the one that was there.
abbrev pub last_cb : GatewayEvent → List SetterCall → Option ℕ → Option ℕ
last_cb e [] cb = cb
last_cb e (c ∷ cs) cb = last_cb e cs (if place e == place (event_of c.setter) then c.cb else cb)

pub call_setter-cbs :
    (s : Setter) (connected : Bool) (cb : Option ℕ) (h : Handlers) (i : ℕ)
    → (call_setter s connected cb h).cbs i ≡ (if i == place (event_of s) then cb else h.cbs i)
call_setter-cbs on_ready true cb h i = refl
call_setter-cbs on_ready false cb h i = refl
call_setter-cbs _ true cb h i = refl
call_setter-cbs _ false cb h i = refl

-- The events that each intent stands for.
abbrev pub events_of : Intent → List GatewayEvent
events_of auto_moderation_configuration =
    auto_moderation_rule_create ∷ auto_moderation_rule_update ∷ auto_moderation_rule_delete ∷ []
events_of auto_moderation_execution = auto_moderation_action_execution ∷ []
events_of guilds =
    channel_create ∷ channel_update ∷ channel_delete ∷ channel_pins_update ∷ thread_create
    ∷ thread_update ∷ thread_delete ∷ thread_list_sync ∷ thread_member_update
    ∷ thread_members_update ∷ guild_create ∷ guild_update ∷ guild_delete ∷ guild_role_create
    ∷ guild_role_update ∷ guild_role_delete ∷ stage_instance_create ∷ stage_instance_update
    ∷ stage_instance_delete ∷ []
events_of direct_messages =
    channel_pins_update ∷ message_create ∷ message_update ∷ message_delete ∷ []
events_of guild_members =
    thread_members_update ∷ guild_member_add ∷ guild_member_update ∷ guild_member_remove ∷ []
events_of guild_bans = guild_ban_add ∷ guild_ban_remove ∷ []
events_of guild_emojis_and_stickers = guild_emojis_update ∷ guild_stickers_update ∷ []
events_of guild_integrations =
    guild_integrations_update ∷ integration_create ∷ integration_update ∷ integration_delete ∷ []
events_of guild_scheduled_events =
    guild_scheduled_event_create ∷ guild_scheduled_event_update ∷ guild_scheduled_event_delete
    ∷ guild_scheduled_event_user_add ∷ guild_scheduled_event_user_remove ∷ []
events_of guild_invites = invite_create ∷ invite_delete ∷ []
events_of guild_messages =
    message_create ∷ message_update ∷ message_delete ∷ message_delete_bulk ∷ []
events_of guild_message_reactions =
    message_reaction_add ∷ message_reaction_remove ∷ message_reaction_remove_all
    ∷ message_reaction_remove_emoji ∷ []
events_of direct_message_reactions =
    message_reaction_add ∷ message_reaction_remove ∷ message_reaction_remove_all
    ∷ message_reaction_remove_emoji ∷ []
events_of guild_presences = presence_update ∷ []
events_of guild_message_typing = typing_start ∷ []
events_of direct_message_typing = typing_start ∷ []
events_of guild_voice_states = voice_state_update ∷ voice_server_update ∷ []
events_of guild_webhooks = webhooks_update ∷ []

abbrev pub has_event : GatewayEvent → List GatewayEvent → Bool
has_event e [] = false
has_event e (e' ∷ es) = place e == place e' || has_event e es

call_setter-intents :
    (x : Intent) (s : Setter) (connected : Bool) (cb : Option ℕ) (h : Handlers)
    → (call_setter s connected cb h).intents (bit x)
      ≡ h.intents (bit x) || (not connected && has_event (event_of s) (events_of x))
call_setter-intents guilds on_ready true cb h = ground arith
call_setter-intents guilds on_ready false cb h = ground arith
call_setter-intents _ _ true cb h = ground arith
call_setter-intents _ _ false cb h = ground arith

-- An intent is asked for by a call for one of its events while the client is not connected.
abbrev pub is_asked : Intent → List SetterCall → Bool
is_asked x [] = false
is_asked x (c ∷ cs) =
    (not c.connected && has_event (event_of c.setter) (events_of x)) || is_asked x cs

run_setters-cbs :
    (cs : List SetterCall) (h : Handlers) (e : GatewayEvent)
    → (run_setters cs h).cbs (place e) ≡ last_cb e cs (h.cbs (place e))
unfolding run_setters
run_setters-cbs [] h e = refl
run_setters-cbs (c ∷ cs) h e =
    run_setters-cbs cs (call_setter c.setter c.connected c.cb h) e
    ∙ ap (last_cb e cs) (call_setter-cbs c.setter c.connected c.cb h (place e))

run_setters-intents :
    (cs : List SetterCall) (h : Handlers) (x : Intent)
    → (run_setters cs h).intents (bit x) ≡ h.intents (bit x) || is_asked x cs
unfolding run_setters
run_setters-intents [] h x = ground arith
run_setters-intents (c ∷ cs) h x = ground (
  arith,
  run_setters-intents cs (call_setter c.setter c.connected c.cb h) x,
  call_setter-intents x c.setter c.connected c.cb h,
)

-- After a history of calls of the setters, the callback of an event is that of the last call for the
-- event, whether or not the client was connected, and the one from before where there was none; an
-- intent is there if it was before, or if a call for one of its events came while the client was not
-- connected.
pub run_setters-handlers :
    (cs : List SetterCall) (h : Handlers) (e : GatewayEvent) (x : Intent)
    → ((run_setters cs h).cbs (place e) ≡ last_cb e cs (h.cbs (place e)))
      × ((run_setters cs h).intents (bit x) ≡ h.intents (bit x) || is_asked x cs)
run_setters-handlers cs h e x = (run_setters-cbs cs h e, run_setters-intents cs h x)
