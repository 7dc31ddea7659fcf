-- ===== src/Gateway/Send.antt =====
-- winecord-gateway_dispatch.c: the frames that the client sends, and the heartbeat. Building the
-- JSON text is left out: a frame is an `Out` with the numbers in it.
use wineberry_discord.Prelude.{ℕ, ◌+◌, ◌==◌, ◌&&◌, not, Bool, true, false, ltb, if◌then◌else◌}
use wineberry_discord.Prelude.Int.{ℤ, pos, ltb_ℤ, ◌-ℤ◌, ◌+ℤ◌}
use wineberry_discord.Gateway.{
  Result, ok, ◌>>=◌, assert, Gateway, identify, resume, heartbeat, emit, with_session, with_timer,
  sub_u64,
}
use wineberry_discord.Gateway.Close.{reconnect}

-- The ratelimit check of `winecord_gateway_send_identify`.
unfoldable pub count_identify : Gateway → Result Gateway
count_identify gw =
    if ltb (sub_u64 gw.timer.now gw.timer.identify_last) 5
    then assert (ltb (gw.session.concurrent + 1) gw.session.max_concurrency)
        (with_session gw (record gw.session { concurrent = gw.session.concurrent + 1 }))
    else ok (with_session gw (record gw.session { concurrent = 0 }))

-- `winecord_gateway_send_identify`
unfoldable pub send_identify : Gateway → Bool → Result Gateway
unfolding count_identify
send_identify gw sent = do
  gw' ← count_identify gw
  ok (
      if sent
      then emit identify (with_timer gw' (record gw'.timer { identify_last = gw'.timer.now }))
      else gw')

-- `winecord_gateway_send_resume`; the bit RESUMABLE is flipped by `^=`.
unfoldable pub send_resume : Gateway → Bool → Gateway
send_resume gw sent =
    let gw' = with_session gw (record gw.session { resumable = not gw.session.resumable }) in
    if sent then emit (resume gw.seq) gw' else gw'

-- `winecord_gateway_send_heartbeat`; `timer_id` is the id that `winecord_internal_timer` gives.
unfoldable pub send_heartbeat : Gateway → ℕ → Bool → ℕ → Gateway
send_heartbeat gw seq sent timer_id =
    if gw.timer.hbeat_acknowledged
    then (if sent
        then emit (heartbeat seq) (
            with_timer gw (record gw.timer {
              hbeat_acknowledged = false;
              hbeat_last = gw.timer.now;
              hbeat_timer = if gw.timer.hbeat_timer == 0 then timer_id else gw.timer.hbeat_timer;
            }))
        else gw)
    else reconnect (with_timer gw (record gw.timer { hbeat_acknowledged = true })) false

-- `next_hb - now` with both converted to `int64_t`. An unsigned sum that stays below 2 ^ 63 is exact.
unfoldable pub next_interval : ℕ → ℤ → ℕ → ℤ
next_interval last interval stamp = (pos last +ℤ interval) -ℤ pos stamp

-- `_winecord_on_heartbeat_timeout`: the heartbeat, and the interval until the timer's next tick.
-- `gw` is the gateway as `winecord_gateway_perform` leaves it, `performed` says that this call
-- returned WINEBERRY_OK, and `stamp` is
-- `winecord_timestamp`.
unfoldable pub on_heartbeat_timeout : Gateway → Bool → Bool → ℕ → ℕ → Gateway × ℤ
unfolding next_interval
on_heartbeat_timeout gw performed sent timer_id stamp =
    let gw' =
      if performed && (not gw.session.shutdown && gw.session.is_ready)
      then send_heartbeat gw gw.seq sent timer_id
      else gw in
    let interval = next_interval gw'.timer.hbeat_last gw'.timer.hbeat_interval stamp in
    (gw', if ltb_ℤ interval (pos 1) then pos 1 else interval)
