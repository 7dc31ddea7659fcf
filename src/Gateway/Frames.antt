-- ===== src/Gateway/Frames.antt =====
-- winecord-gateway.c and winecord-gateway_dispatch.c: what the client answers to HELLO, when a
-- connection counts as dead, and how often it may identify.
use wineberry_discord.Prelude.{
  ℕ, zero, suc, ◌+◌, ◌≡◌, ◌<◌, ◌≤◌, refl, Bool, true, false, [], ◌∷◌, ◌++◌, arith, ltb,
  if◌then◌else◌, lt→ltb, ltb→lt, Bool-cases, inl, inr,
}
use wineberry_discord.Prelude.Int.{pos, ◌≤ℤ◌}
use wineberry_discord.Gateway.{
  Result, ok, abort, ◌>>=◌, Gateway, identify, resume, heartbeat, close, normal, sub_u64,
  with_session, with_timer, emit,
}
use wineberry_discord.Gateway.Close.{reconnect}
use wineberry_discord.Gateway.Send.{
  send_identify, send_resume, send_heartbeat, on_heartbeat_timeout,
}
use wineberry_discord.Gateway.Receive.{Env, Frame, on_hello, on_heartbeat_ack}

-- The answer to HELLO, where it can be sent and the identify threshold is not met, is one frame:
-- RESUME with the last sequence number if the session is resumable, and IDENTIFY otherwise. The
-- session is not resumable afterwards, so a second HELLO is answered by IDENTIFY.
pub on_hello_frame :
    (gw g : Gateway) (f : Frame) (env : Env)
    → env.sent ≡ true
    → on_hello gw f env ≡ ok g
    → (g.out ≡ gw.out ++ (if gw.session.resumable then resume gw.seq else identify) ∷ [])
      × (g.session.resumable ≡ false)
unfolding on_hello send_resume send_identify
on_hello_frame gw g f env h e = ground arith

-- A heartbeat that is not acknowledged before the next one is due makes the client give the session
-- up: the next one is not sent, the socket is asked to close, and the session will be started again
-- without resuming. With the acknowledgement in between both heartbeats are sent.
pub send_heartbeat_twice :
    (gw : Gateway) (a b timer_id later_id : ℕ)
    → gw.timer.hbeat_acknowledged ≡ true
    → let first = send_heartbeat gw a true timer_id in
      let dead = send_heartbeat first b true later_id in
      (dead.out ≡ (gw.out ++ heartbeat a ∷ []) ++ close normal ∷ [])
      × (dead.session.shutdown ≡ true)
      × (dead.session.resumable ≡ false)
      × (dead.session.retry_enable ≡ true)
      × ((send_heartbeat (on_heartbeat_ack first) b true later_id).out
          ≡ (gw.out ++ heartbeat a ∷ []) ++ heartbeat b ∷ [])
unfolding send_heartbeat reconnect on_heartbeat_ack
send_heartbeat_twice gw a b timer_id later_id h = ground arith

-- The heartbeat timer is always set to tick again, after one millisecond at least.
pub on_heartbeat_timeout_interval :
    (gw : Gateway) (performed sent : Bool) (timer_id stamp : ℕ)
    → pos 1 ≤ℤ (on_heartbeat_timeout gw performed sent timer_id stamp).1
unfolding on_heartbeat_timeout
on_heartbeat_timeout_interval gw performed sent timer_id stamp = ground arith

-- `k` identify frames at one time of the clock.
abbrev pub identify_times : ℕ → Gateway → Result Gateway
identify_times zero gw = ok gw
identify_times (suc k) gw = send_identify gw true >>= identify_times k

-- The gateway after an identify that is sent within the window.
abbrev identified : Gateway → Gateway
identified gw = emit identify (
    with_timer (with_session gw (record gw.session { concurrent = gw.session.concurrent + 1 }))
      (record gw.timer { identify_last = gw.timer.now }))

send_identify-identified :
    (gw : Gateway)
    → sub_u64 gw.timer.now gw.timer.identify_last < 5
    → send_identify gw true ≡ (
        if ltb (gw.session.concurrent + 1) gw.session.max_concurrency
        then ok (identified gw)
        else abort)
unfolding send_identify
send_identify-identified gw h = ground arith

-- Less than 5 milliseconds after an identify, `k` more are sent if the count of concurrent identifies
-- stays below the limit, and the program ends by its assertion if the count would reach the limit.
pub identify_times_cases :
    (k : ℕ) (gw : Gateway)
    → sub_u64 gw.timer.now gw.timer.identify_last < 5
    → (gw.session.concurrent + k < gw.session.max_concurrency
        → (g : Gateway) × (identify_times k gw ≡ ok g)
          × (g.session.concurrent ≡ gw.session.concurrent + k))
      × (0 < k
          → gw.session.max_concurrency ≤ gw.session.concurrent + k
          → identify_times k gw ≡ abort)
identify_times_cases zero gw h = ((λ l. (gw, refl, omega arith)), λ p. absurd (omega arith))
identify_times_cases (suc k) gw h =
    let (more, stop) = identify_times_cases k (identified gw) (omega arith) in
    let one_more = gw.session.concurrent + 1 in
    let limit = gw.session.max_concurrency in
    (
      (λ l.
          let (g, e, c) = more (omega arith) in
          (
            g,
            rw (send_identify-identified gw h, lt→ltb one_more limit (omega arith)) e,
            omega arith,
          )),
      λ p l. elim (Bool-cases (ltb one_more limit)) [
        | inl t ↦
            rw (send_identify-identified gw h, t)
              (stop (omega (arith, ltb→lt one_more limit t)) (omega arith))
        | inr t ↦ rw (send_identify-identified gw h, t)
      ],
    )
