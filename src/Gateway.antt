-- ===== src/Gateway.antt =====
-- source/wineberry/discord/winecord-gateway.c and the sending half of winecord-gateway_dispatch.c:
-- the session with Discord's gateway. The state is `struct winecord_gateway` with its `session` and
-- `timer`; the two status bits RESUMABLE and SHUTDOWN are two Booleans (OFFLINE is neither). Texts
-- are lists of bytes. What the client does to the outside (frames, close requests, callbacks) is
-- appended to `out`. An `ASSERT_S` that fails ends the program: `abort`. A handler sends at most one
-- frame, and its argument `sent` is what `ws_send_text` returns.
pub mod Event
pub mod Close
pub mod Send
pub mod Receive
pub mod Connect
pub mod Life
pub mod Frames
pub mod Buffers
pub mod Retry
mod Tests
use wineberry_discord.Prelude.{
  ℕ, ◌+◌, ◌-◌, ◌%◌, ◌^◌, ◌≡◌, ◌==◌, Bool, true, false, List, [], ◌∷◌, ◌++◌, Option, none, some, ltb,
  if◌then◌else◌, refl,
}
use wineberry_discord.Prelude.Int.{ℤ, pos, negsuc}

-- What a handler returns. `abort` is the end of the program.
pub data Result (A : Type 0) : Type 0 where
  abort : Result A
  ok : A → Result A

infixl 5 ◌>>=◌
abbrev pub ◌>>=◌ : {S T : Type 0} → Result S → (S → Result T) → Result T
abort >>= next = abort
ok s >>= next = next s

-- `ASSERT_S`
abbrev pub assert : {A : Type 0} → Bool → A → Result A
assert true a = ok a
assert false a = abort

abbrev pub Text : Type 0
Text = List ℕ

-- The close reasons of Discord's gateway, the normal one of the WebSockets protocol, and the rest.
pub data CloseReason : Type 0 where
  unknown_error unknown_opcode decode_error not_authenticated authentication_failed : CloseReason
  already_authenticated invalid_sequence rate_limited session_timed_out invalid_shard : CloseReason
  sharding_required invalid_api_version invalid_intents disallowed_intents : CloseReason
  reconnecting normal : CloseReason
  other : ℕ → CloseReason

-- `enum winecord_gateway_events`; `nothing` is WINECORD_EV_NONE.
pub data GatewayEvent : Type 0 where
  nothing : GatewayEvent
  ready resumed reconnect invalid_session application_command_permissions_update : GatewayEvent
  auto_moderation_rule_create auto_moderation_rule_update auto_moderation_rule_delete : GatewayEvent
  auto_moderation_action_execution channel_create channel_update channel_delete : GatewayEvent
  channel_pins_update thread_create thread_update thread_delete thread_list_sync : GatewayEvent
  thread_member_update thread_members_update guild_create guild_update guild_delete : GatewayEvent
  guild_ban_add guild_ban_remove guild_emojis_update guild_stickers_update : GatewayEvent
  guild_integrations_update guild_member_add guild_member_update guild_member_remove : GatewayEvent
  guild_members_chunk guild_role_create guild_role_update guild_role_delete : GatewayEvent
  guild_scheduled_event_create guild_scheduled_event_update : GatewayEvent
  guild_scheduled_event_delete guild_scheduled_event_user_add : GatewayEvent
  guild_scheduled_event_user_remove integration_create integration_update : GatewayEvent
  integration_delete interaction_create invite_create invite_delete message_create : GatewayEvent
  message_update message_delete message_delete_bulk message_reaction_add : GatewayEvent
  message_reaction_remove message_reaction_remove_all message_reaction_remove_emoji : GatewayEvent
  presence_update stage_instance_create stage_instance_delete stage_instance_update : GatewayEvent
  typing_start user_update voice_state_update voice_server_update webhooks_update : GatewayEvent

pub data Out : Type 0 where
  identify : Out
  resume heartbeat : ℕ → Out
  close : CloseReason → Out
  connect : Text → Out
  shard_disconnected : Bool → Out
  shard_resumed : Out
  dispatched queued : GatewayEvent → Out

-- `struct winecord_gateway_session`; `remaining` and `max_concurrency` are those of `start_limit`.
pub record Session : Type 0 where
  pub is_ready : Bool
  pub id : Text
  pub base_url : Text
  pub resume_url : Text
  pub remaining : ℕ
  pub max_concurrency : ℕ
  pub concurrent : ℕ
  pub resumable : Bool
  pub shutdown : Bool
  pub retry_enable : Bool
  pub retry_attempt : ℕ
  pub retry_limit : ℤ

-- The gateway's timestamps, milliseconds in 64 bits. `hbeat_timer` is 0 until the timer is there.
pub record Clock : Type 0 where
  pub hbeat_interval : ℤ
  pub hbeat_acknowledged : Bool
  pub now : ℕ
  pub hbeat_last : ℕ
  pub identify_last : ℕ
  pub hbeat_timer : ℕ
  pub ping_ms : ℤ

pub record Gateway : Type 0 where
  pub session : Session
  pub timer : Clock
  pub seq : ℕ
  pub caches_shards : Bool
  pub out : List Out

abbrev pub with_session : Gateway → Session → Gateway
with_session gw s = record gw { session = s }

abbrev pub with_timer : Gateway → Clock → Gateway
with_timer gw t = record gw { timer = t }

abbrev pub emit : Out → Gateway → Gateway
emit o gw = record gw { out = gw.out ++ o ∷ [] }

-- `a - b` of two `u64unix_ms`.
abbrev pub sub_u64 : ℕ → ℕ → ℕ
sub_u64 a b = (a + 2 ^ 64 - b) % 2 ^ 64

-- How two steps in a row came to a result: the state between them, and the two steps.
pub record Passed {S T : Type 0} (first : Result S) (next : S → Result T) (t : T) : Type 0 where
  pub between : S
  pub before : first ≡ ok between
  pub after : next between ≡ ok t

pub passed :
    {S T : Type 0} (first : Result S) (next : S → Result T) {t : T}
    → (first >>= next) ≡ ok t
    → Passed first next t
passed abort next e = cc
passed (ok s) next e = record { between = s; before = refl; after = e }
