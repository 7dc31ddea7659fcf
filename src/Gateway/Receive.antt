-- ===== src/Gateway/Receive.antt =====
-- winecord-gateway.c: the frames that come in (`_ws_on_text`). The JSON parser is not part of the
-- repository: what `jsmnf_find` finds in a frame is a `Frame`. Handing an event on to its callbacks
-- is an `Out` of its own; the cloning of the client for a worker thread is left out.
use wineberry_discord.Prelude.{
  ℕ, ◌-◌, ◌%◌, ◌^◌, ◌==◌, Bool, true, false, [], ◌∷◌, ◌++◌, Option, none, some, ltb, length, take,
  if◌then◌else◌,
}
use mathlib.Core.Option
use wineberry_discord.Prelude.Int.{ℤ, pos, negsuc}
use wineberry_discord.Gateway.{
  Result, ok, abort, ◌>>=◌, assert, Text, Gateway, Session, shard_resumed, emit, GatewayEvent,
  ready, resumed, dispatched, queued, with_session, with_timer, sub_u64,
}
use wineberry_discord.Gateway.Event.{payload_event}
use wineberry_discord.Gateway.Close.{on_invalid_session, on_reconnect}
use wineberry_discord.Gateway.Send.{send_identify, send_resume, send_heartbeat}

pub data Opcode : Type 0 where
  dispatch invalid_session reconnect hello heartbeat_ack : Opcode
  unhandled : ℕ → Opcode

-- The value of the field "t": a string, or something else.
pub data NameField : Type 0 where
  string : Text → NameField
  no_string : NameField

-- What is found in a frame: "t", "s" and "op", and in "d" the fields that the handlers read.
-- `d_is_false` says that "d" is the literal `false`.
pub record Frame : Type 0 where
  pub t : Option NameField
  pub s : Option ℕ
  pub op : Option Opcode
  pub session_id : Option Text
  pub resume_gateway_url : Option Text
  pub heartbeat_interval : Option ℤ
  pub d_is_false : Bool

-- The fields of `struct winecord_gateway_payload` that outlive a frame, but for `seq`.
pub record Payload : Type 0 where
  pub event : GatewayEvent
  pub opcode : Opcode

-- The answer of the scheduler callback.
pub data Mode : Type 0 where
  ignore main_thread worker_thread unknown : Mode

-- What the outside answers during one frame: `ws_send_text`, `winecord_internal_timer`, the
-- scheduler, and `winecord_worker_add` (true for WINEBERRY_OK).
pub record Env : Type 0 where
  pub sent : Bool
  pub timer_id : ℕ
  pub mode : Mode
  pub hired : Bool

abbrev name_text : NameField → Text
name_text (string t) = t
name_text no_string = []

abbrev found_event : Option NameField → GatewayEvent → GatewayEvent
found_event none e = e
found_event (some t) e = payload_event (name_text t)

abbrev found_seq : Option ℕ → ℕ → ℕ
found_seq none seq = seq
found_seq (some n) seq = if n == 0 then seq else n

abbrev pub found_or {ℓ} : {A : Type ℓ} → Option A → A → A
found_or none a = a
found_or (some b) a = b

-- `_winecord_gateway_payload_from_json` after the parser.
unfoldable pub read_payload : Payload → Frame → Payload
read_payload p f = record { event = found_event f.t p.event; opcode = found_or f.op p.opcode }

unfoldable pub read_seq : ℕ → Frame → ℕ
read_seq seq f = found_seq f.s seq

-- `_winecord_on_hello`
unfoldable pub on_hello : Gateway → Frame → Env → Result Gateway
on_hello gw f env =
    let gw' = with_timer gw (record gw.timer {
      hbeat_interval = found_or f.heartbeat_interval gw.timer.hbeat_interval;
    }) in
    if gw.session.resumable then ok (send_resume gw' env.sent) else send_identify gw' env.sent

abbrev ends_in_slash : Text → Bool
ends_in_slash [] = false
ends_in_slash (c ∷ []) = c == b'/'
ends_in_slash (c ∷ cs) = ends_in_slash cs

-- `snprintf(resume_url, sizeof(resume_url), "%.*s%s" WINECORD_GATEWAY_URL_SUFFIX, …)`
unfoldable pub full_url : Text → Text → Text
full_url suffix url = url ++ (if ends_in_slash url then [] else b'/' ∷ []) ++ suffix

unfoldable pub url_size : ℕ
url_size = 256

unfoldable pub id_size : ℕ
id_size = 64

abbrev pub is_empty : Text → Bool
is_empty [] = true
is_empty (c ∷ cs) = false

unfoldable pub set_resume_url : Text → Session → Option Text → Result Session
unfolding full_url url_size
set_resume_url suffix s none = ok s
set_resume_url suffix s (some url) =
    let full = full_url suffix url in
    assert (ltb (length full) url_size) (record s { resume_url = full })

-- The case WINECORD_EV_READY of `_winecord_on_dispatch`.
unfoldable pub on_ready : Text → Gateway → Frame → Env → Result Gateway
unfolding id_size
on_ready suffix gw f env =
    let id' = found_or (Option.map (take (id_size - 1)) f.session_id) gw.session.id in
    do
      s ← if is_empty id' then abort else ok (record gw.session { id = id' })
      s' ← set_resume_url suffix s f.resume_gateway_url
      ok (
          send_heartbeat (with_session gw (record s' { is_ready = true; retry_attempt = 0 })) gw.seq
            env.sent env.timer_id)

-- The case WINECORD_EV_RESUMED of `_winecord_on_dispatch`.
unfoldable pub on_resumed : Gateway → Env → Gateway
on_resumed gw env =
    let gw' = with_session gw (record gw.session { is_ready = true; retry_attempt = 0 }) in
    send_heartbeat (if gw.caches_shards then emit shard_resumed gw' else gw') gw.seq env.sent
      env.timer_id

abbrev pub on_event : GatewayEvent → Text → Gateway → Frame → Env → Result Gateway
on_event ready suffix gw f env = on_ready suffix gw f env
on_event resumed suffix gw f env = ok (on_resumed gw env)
on_event _ suffix gw f env = ok gw

abbrev pub schedule : GatewayEvent → Env → Mode → Gateway → Result Gateway
schedule e env ignore gw = ok gw
schedule e env main_thread gw = ok (emit (dispatched e) gw)
schedule e env worker_thread gw = ok (if env.hired then emit (queued e) gw else gw)
schedule e env unknown gw = abort

-- `_winecord_on_dispatch`
unfoldable pub on_dispatch : Text → GatewayEvent → Gateway → Frame → Env → Result Gateway
on_dispatch suffix e gw f env = do gw' ← on_event e suffix gw f env; schedule e env env.mode gw'

-- The conversion of a `uint64_t` to `int`.
unfoldable pub int_of_u64 : ℕ → ℤ
int_of_u64 n = let r = n % 2 ^ 32 in if ltb r (2 ^ 31) then pos r else negsuc (2 ^ 32 - 1 - r)

-- `_winecord_on_heartbeat_ack`
unfoldable pub on_heartbeat_ack : Gateway → Gateway
on_heartbeat_ack gw = with_timer gw (record gw.timer {
  ping_ms = int_of_u64 (sub_u64 gw.timer.now gw.timer.hbeat_last);
  hbeat_acknowledged = true;
})

abbrev pub on_opcode : Opcode → Text → GatewayEvent → Gateway → Frame → Env → Result Gateway
on_opcode dispatch suffix e gw f env = on_dispatch suffix e gw f env
on_opcode invalid_session suffix e gw f env = ok (on_invalid_session gw f.d_is_false)
on_opcode reconnect suffix e gw f env = ok (on_reconnect gw)
on_opcode hello suffix e gw f env = on_hello gw f env
on_opcode heartbeat_ack suffix e gw f env = ok (on_heartbeat_ack gw)
on_opcode (unhandled n) suffix e gw f env = ok gw

-- `_ws_on_text`. A frame that cannot be parsed is `none` and changes nothing. A frame has a field
-- "d"; without one the handlers would read through a null pointer.
unfoldable pub on_text : Text → Payload → Gateway → Option Frame → Env → Result (Payload × Gateway)
on_text suffix p gw none env = ok (p, gw)
on_text suffix p gw (some f) env =
    let p' = read_payload p f in
    on_opcode p'.opcode suffix p'.event (record gw { seq = read_seq gw.seq f }) f env >>= λ gw'.
    ok (p', gw')
