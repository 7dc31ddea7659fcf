-- ===== src/Voice.antt =====
-- source/wineberry/discord/winecord-voice.c: the voice connections, the slots of `client->vcs`. Texts
-- are lists of bytes. The websockets library belongs to another repository: whether it is alive is an
-- argument, and what the code asks of it and of the gateway is a list of effects. The JSON of a frame
-- is read by other code; a frame is one of its events with what the handler reads. The handlers' user
-- callbacks and logging are left out.
pub mod Slots
pub mod Thread
mod Tests
use wineberry_discord.Prelude.{
  ℕ, ◌+◌, ◌%◌, ◌^◌, ◌==◌, ◌-◌, Bool, true, false, not, List, [], ◌∷◌, ◌++◌, Option, none, some, ltb,
  length, if◌then◌else◌,
}
use wineberry_discord.Prelude.Texts.{Text, codes}

-- `enum winecord_voice_close_opcodes`, the normal close of a websocket, and any other code.
pub data CloseOpcode : Type 0 where
  server_crash unknown_opcode decode_error not_authenticated authentication_failed : CloseOpcode
  already_authenticated server_not_found unknown_protocol unknown_encryption_mode : CloseOpcode
  disconnected session_timed_out invalid_session normal other_close : CloseOpcode

-- `struct winecord_voice`, less the parsed frame, the UDP service and the pointers. `has_ws` is `ws != NULL`; the texts stand for the arrays of characters.
pub record Voice : Type 0 where
  pub guild_id : ℕ
  pub channel_id : ℕ
  pub token : Text
  pub new_token : Text
  pub new_url : Text
  pub session_id : Text
  pub has_ws : Bool
  pub enable : Bool
  pub attempt : ℕ
  pub threshold : ℕ
  pub is_resumable : Bool
  pub is_redirect : Bool
  pub is_ready : Bool
  pub interval_ms : ℕ
  pub tstamp : ℕ
  pub ping_ms : ℕ
  pub shutdown : Bool

-- The frames that are sent, the calls of the websockets, and a new thread.
pub data Effect : Type 0 where
  identify resume : ℕ → Text → Text → Effect
  heartbeat : ℕ → Effect
  voice_state : ℕ → ℕ → Bool → Bool → Effect
  close_normal close_no_reason ws_start ws_end start_thread : Effect
  set_url : Text → Effect

-- `none` in place of a step is a failed assertion, which ends the program.
abbrev pub Step : Type 0
Step = Voice × List Effect

abbrev pub reset_vc : Voice → Voice
reset_vc vc = record vc { attempt = 0; shutdown = false }

-- `_winecord_voice_init`
abbrev pub init_ws : Voice → Voice
init_ws vc = if vc.has_ws then vc else record vc { has_ws = true; threshold = 5; enable = true }

abbrev pub init_vc : ℕ → ℕ → Voice → Voice
init_vc guild_id channel_id vc =
    reset_vc (init_ws (record vc { guild_id = guild_id; channel_id = channel_id }))

-- `send_resume` and `send_identify`
abbrev pub send_resume : Voice → Step
send_resume vc =
    (record vc { is_resumable = false }, resume vc.guild_id vc.session_id vc.token ∷ [])

abbrev pub send_identify : Voice → Step
send_identify vc = (vc, identify vc.guild_id vc.session_id vc.token ∷ [])

-- `interval` is the integral part of the field.
abbrev pub on_hello : ℕ → ℕ → Voice → Step
on_hello now interval vc =
    let vc' = record vc {
      tstamp = now;
      interval_ms = if ltb interval 5000 then interval else 5000;
    } in
    if vc.is_resumable then send_resume vc' else send_identify vc'

abbrev pub on_ready : Voice → Voice
on_ready vc = record vc { is_ready = true; attempt = 0 }

abbrev pub on_resumed : Voice → Voice
on_resumed vc = record vc { is_ready = true; attempt = 0 }

-- The difference of two 64-bit times.
abbrev pub since : ℕ → ℕ → ℕ
since now before = (now + (2 ^ 64 - before)) % 2 ^ 64

-- The bits of an `int`.
abbrev pub on_heartbeat_ack : ℕ → Voice → Voice
on_heartbeat_ack now vc = record vc { ping_ms = since now vc.tstamp % 2 ^ 32 }

-- Whether to resume and whether to reconnect.
abbrev pub close_flags : CloseOpcode → Bool × Bool
close_flags server_crash = (true, true)
close_flags unknown_opcode = (false, false)
close_flags decode_error = (false, false)
close_flags not_authenticated = (false, false)
close_flags authentication_failed = (false, false)
close_flags already_authenticated = (false, false)
close_flags server_not_found = (false, false)
close_flags unknown_protocol = (false, false)
close_flags unknown_encryption_mode = (false, false)
close_flags disconnected = (false, true)
close_flags normal = (true, true)
close_flags other_close = (false, false)
close_flags session_timed_out = (false, true)
close_flags invalid_session = (false, true)

abbrev pub on_close : CloseOpcode → Voice → Voice
on_close opcode vc =
    if vc.shutdown
    then vc
    else record vc { is_resumable = (close_flags opcode).0; enable = (close_flags opcode).1 }

-- The frames that the library delivers: the opcode, and the interval of a hello.
pub data Frame : Type 0 where
  ready session_description speaking heartbeat_ack : Frame
  hello : ℕ → Frame
  resumed client_disconnect codec unknown : Frame

abbrev pub on_text : ℕ → Frame → Voice → Step
on_text now ready vc = (on_ready vc, [])
on_text now heartbeat_ack vc = (on_heartbeat_ack now vc, [])
on_text now (hello interval) vc = on_hello now interval vc
on_text now resumed vc = (on_resumed vc, [])
on_text now frame vc = (vc, [])

abbrev pub voice_shutdown : Voice → Step
voice_shutdown vc = (
  record vc { enable = false; shutdown = true; is_resumable = false },
  voice_state vc.guild_id 0 false false ∷ close_normal ∷ [],
)

abbrev pub voice_reconnect : Bool → Voice → Step
voice_reconnect resume_it vc = (
  record vc { enable = true; shutdown = true; is_resumable = resume_it },
  (if resume_it then close_no_reason else close_normal) ∷ [],
)

abbrev pub recycle_active_vc : Bool → ℕ → ℕ → Voice → Step
recycle_active_vc alive guild_id channel_id vc =
    let (vc', effects) = if alive then voice_shutdown vc else (vc, []) in
    (record vc' { channel_id = channel_id; guild_id = guild_id; shutdown = false }, effects)

-- `_winecord_on_voice_server_update` for its slot. `suffix` is
-- WINECORD_VCS_URL_SUFFIX, of a header that is not in the repository.
abbrev pub server_update : Text → Bool → Text → Text → Voice → Option Step
server_update suffix alive token endpoint vc =
    let url = codes "wss://" ++ (endpoint ++ suffix) in
    let vc' = record vc { new_token = token; new_url = url } in
    if not (ltb (length token) 128)
    then none
    else if not (ltb (length url) 512)
    then none
    else if alive
    then some (record vc' { is_redirect = true }, close_normal ∷ [])
    else some (record vc' { token = token }, set_url url ∷ start_thread ∷ [])

-- `_winecord_on_voice_state_update` for its slot
abbrev pub state_update : ℕ → Text → Voice → Option Voice
state_update channel_id session_id vc =
    if channel_id == 0
    then some vc
    else if ltb (length session_id) 128
    then some (record vc { session_id = session_id })
    else none
