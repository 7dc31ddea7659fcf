-- ===== src/Gateway/Buffers.antt =====
-- winecord-gateway.c: the texts that a session keeps fit their buffers, `char id[64]`,
-- `char base_url[256]` and `char resume_url[256]`, the final null byte included.
use mathlib.Core.Option
use wineberry_discord.Prelude.{
  ℕ, ◌-◌, ◌≡◌, ◌<◌, ◌≤◌, Bool, List, [], ◌∷◌, Option, none, some, arith, length, take, length-take,
}
use wineberry_discord.Gateway.{
  Result, ok, abort, ◌>>=◌, Text, Gateway, Session, CloseReason, GatewayEvent, ready, resumed,
  passed,
}
use wineberry_discord.Gateway.Close.{
  shutdown, reconnect, on_invalid_session, on_reconnect, on_close,
}
use wineberry_discord.Gateway.Send.{
  send_identify, send_resume, send_heartbeat, on_heartbeat_timeout,
}
use wineberry_discord.Gateway.Receive.{
  Env, Frame, Payload, Opcode, on_text, on_hello, on_ready, on_resumed, on_dispatch,
  on_heartbeat_ack, set_resume_url, url_size, id_size, found_or, Mode, ignore, schedule, on_event,
  on_opcode, dispatch, read_seq, read_payload,
}
use wineberry_discord.Gateway.Connect.{BotInfo, init, start, end}

pub record Fits (s : Session) : Type 0 where
  pub id_fits : length s.id < id_size
  pub base_fits : length s.base_url < url_size
  pub resume_fits : length s.resume_url < url_size

abbrev pub FitsIfOk : Result Gateway → Type 0
FitsIfOk abort = Unit {0}
FitsIfOk (ok gw) = Fits gw.session

length-take_le : (n : ℕ) (t : Text) → length (take n t) ≤ n
length-take_le n t = omega (arith, length-take {0} n t)

new_id_fits :
    (o : Option Text) (old : Text)
    → length old < id_size
    → length (found_or (Option.map (take (id_size - 1)) o) old) < id_size
unfolding id_size
new_id_fits none old h = h
new_id_fits (some t) old h = omega (arith, length-take_le 63 t)

schedule-session :
    (e : GatewayEvent) (env : Env) (m : Mode) (gw gw' : Gateway)
    → schedule e env m gw ≡ ok gw'
    → gw'.session ≡ gw.session
schedule-session e env ignore gw gw' h = ground arith
schedule-session e env _ gw gw' h = ground arith

init-Fits : (caches_shards : Bool) → Fits (init caches_shards).session
unfolding init id_size url_size
init-Fits caches_shards = omega arith

-- One operation or event of the session.
pub data Happening : Type 0 where
  text : Option Frame → Env → Happening
  closed : CloseReason → Happening
  beat : Bool → Bool → ℕ → ℕ → Happening
  asks_shutdown : Happening
  asks_reconnect : Bool → Happening
  starts : Option BotInfo → Happening
  ends : Happening

abbrev pub State : Type 0
State = Payload × Gateway

module _ (suffix : Text) where
  unfoldable pub happen : State → Happening → Result State
  happen (p, gw) (text f env) = on_text suffix p gw f env
  happen (p, gw) (closed reason) = ok (p, on_close gw reason)
  happen (p, gw) (beat performed sent timer_id stamp) =
      ok (p, (on_heartbeat_timeout gw performed sent timer_id stamp).0)
  happen (p, gw) asks_shutdown = ok (p, shutdown gw)
  happen (p, gw) (asks_reconnect resume) = ok (p, reconnect gw resume)
  happen (p, gw) (starts info) = start suffix gw info >>= λ r. ok (p, r.0)
  happen (p, gw) ends = ok (p, (end gw).0)

  unfoldable pub history : State → List Happening → Result State
  history s [] = ok s
  history s (h ∷ hs) = happen s h >>= λ s'. history s' hs

  abbrev pub AllFit : Result State → Type 0
  AllFit abort = Unit {0}
  AllFit (ok s) = Fits s.1.session

  set_resume_url-Fits :
      (s s' : Session) (url : Option Text) → Fits s → set_resume_url suffix s url ≡ ok s' → Fits s'
  unfolding set_resume_url
  set_resume_url-Fits s s' url h e = ground arith

  on_ready-Fits :
      (gw gw' : Gateway) (f : Frame) (env : Env)
      → Fits gw.session
      → on_ready suffix gw f env ≡ ok gw'
      → Fits gw'.session
  unfolding on_ready set_resume_url send_heartbeat reconnect url_size id_size
  on_ready-Fits gw gw' f env h e = ground (arith, new_id_fits f.session_id gw.session.id h.id_fits)

  start-Fits :
      (gw : Gateway) (info : Option BotInfo) (s : State) (p : Payload)
      → Fits gw.session
      → (start suffix gw info >>= λ r. ok (p, r.0)) ≡ ok s
      → Fits s.1.session
  unfolding start url_size
  start-Fits gw info s p h e = ground arith

  on_event-Fits :
      (e : GatewayEvent) (gw gw' : Gateway) (f : Frame) (env : Env)
      → Fits gw.session
      → on_event e suffix gw f env ≡ ok gw'
      → Fits gw'.session
  unfolding on_resumed send_heartbeat reconnect
  on_event-Fits ready gw gw' f env h e = on_ready-Fits gw gw' f env h e
  on_event-Fits resumed gw gw' f env h e = ground arith
  on_event-Fits _ gw gw' f env h e = ground arith

  on_dispatch-Fits :
      (e : GatewayEvent) (gw gw' : Gateway) (f : Frame) (env : Env)
      → Fits gw.session
      → on_dispatch suffix e gw f env ≡ ok gw'
      → Fits gw'.session
  unfolding on_dispatch
  on_dispatch-Fits e gw gw' f env h r =
      let two = passed (on_event e suffix gw f env) _ r in
      let fits = on_event-Fits e gw two.between f env h two.before in
      let same_session = schedule-session e env env.mode two.between gw' two.after in
      rw same_session fits

  on_opcode-Fits :
      (o : Opcode) (e : GatewayEvent) (gw gw' : Gateway) (f : Frame) (env : Env)
      → Fits gw.session
      → on_opcode o suffix e gw f env ≡ ok gw'
      → Fits gw'.session
  unfolding on_invalid_session on_reconnect on_hello send_resume send_identify on_heartbeat_ack
  on_opcode-Fits dispatch e gw gw' f env h r = on_dispatch-Fits e gw gw' f env h r
  on_opcode-Fits _ e gw gw' f env h r = ground arith

  on_text-Fits :
      (p : Payload) (gw : Gateway) (f : Option Frame) (env : Env) (s : State)
      → Fits gw.session
      → on_text suffix p gw f env ≡ ok s
      → Fits s.1.session
  unfolding on_text
  on_text-Fits p gw none env s h e = ground arith
  on_text-Fits p gw (some f) env s h e =
      let p' = read_payload p f in
      let read = record gw { seq = read_seq gw.seq f } in
      let two = passed (on_opcode p'.opcode suffix p'.event read f env) _ e in
      let fits = on_opcode-Fits p'.opcode p'.event read two.between f env h two.before in
      ground (arith, fits, two.after)

  happen-Fits :
      (s s' : State) (h : Happening) → Fits s.1.session → happen s h ≡ ok s' → Fits s'.1.session
  unfolding happen on_close on_heartbeat_timeout send_heartbeat shutdown reconnect end
  happen-Fits (p, gw) s' (text f env) v e = on_text-Fits p gw f env s' v e
  happen-Fits (p, gw) s' (closed reason) v e = ground arith
  happen-Fits (p, gw) s' (beat performed sent timer_id stamp) v e = ground arith
  happen-Fits (p, gw) s' asks_shutdown v e = ground arith
  happen-Fits (p, gw) s' (asks_reconnect resume) v e = ground arith
  happen-Fits (p, gw) s' (starts info) v e = start-Fits gw info s' p v e
  happen-Fits (p, gw) s' ends v e = ground arith

  history_from-Fits :
      (hs : List Happening) (s s' : State)
      → Fits s.1.session
      → history s hs ≡ ok s'
      → Fits s'.1.session
  unfolding history
  history_from-Fits [] s s' v e = ground arith
  history_from-Fits (h ∷ hs) s s' v e =
      let two = passed (happen s h) _ e in
      history_from-Fits hs two.between s' (happen-Fits s two.between h v two.before) two.after

  -- In every history of frames, closes, heartbeat ticks and calls of the client on a new gateway
  -- that does not end in a failed assertion, the session's id and its two URLs fit their buffers.
  pub history-Fits :
      (hs : List Happening) (p : Payload) (caches_shards : Bool) (s : State)
      → history (p, init caches_shards) hs ≡ ok s
      → Fits s.1.session
  history-Fits hs p caches_shards s e =
      history_from-Fits hs (p, init caches_shards) s (init-Fits caches_shards) e
