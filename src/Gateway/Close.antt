-- ===== src/Gateway/Close.antt =====
-- winecord-gateway.c: how a session is asked to close, by the client (`winecord_gateway_shutdown`,
-- `winecord_gateway_reconnect`) or by Discord (opcodes INVALID_SESSION and RECONNECT), and what a
-- close does to it (`_ws_on_close`). The waking of the poller after `ws_close` is left out.
use wineberry_discord.Prelude.{Bool, true, false, not, if◌then◌else◌}
use wineberry_discord.Gateway.{
  Session, Gateway, CloseReason, close, shard_disconnected, unknown_error, unknown_opcode,
  decode_error, not_authenticated, authentication_failed, already_authenticated, invalid_sequence,
  rate_limited, session_timed_out, invalid_shard, sharding_required, invalid_api_version,
  invalid_intents, disallowed_intents, reconnecting, normal, other, with_session, emit,
}

-- `winecord_gateway_shutdown`
unfoldable pub shutdown : Gateway → Gateway
shutdown gw = emit (close normal) (
    with_session gw
      (record gw.session { retry_enable = false; resumable = false; shutdown = true }))

-- `winecord_gateway_reconnect`
unfoldable pub reconnect : Gateway → Bool → Gateway
reconnect gw resume = emit (close (if resume then reconnecting else normal)) (
    with_session gw
      (record gw.session { retry_enable = true; resumable = resume; shutdown = true }))

-- `_winecord_on_invalid_session`; `is_false` says that the payload's "d" is the literal `false`.
unfoldable pub on_invalid_session : Gateway → Bool → Gateway
on_invalid_session gw is_false = emit (close (if is_false then normal else reconnecting)) (
    with_session gw
      (record gw.session { retry_enable = true; resumable = not is_false; shutdown = true }))

-- `_winecord_on_reconnect`
unfoldable pub on_reconnect : Gateway → Gateway
on_reconnect gw =
    emit (close reconnecting) (
      with_session gw
        (record gw.session { resumable = true; shutdown = true; retry_enable = true }))

abbrev new_session : Session → Session
new_session s = record s { resumable = false; retry_enable = true }

abbrev resume_session : Session → Session
resume_session s = record s { resumable = true; retry_enable = true }

abbrev give_up : Session → Session
give_up s = record s { resumable = false; retry_enable = false }

-- The `switch` of `_ws_on_close`. `default` and `reconnecting` are those that it does not name.
unfoldable pub close_session : CloseReason → Session → Session
close_session normal s = resume_session s
close_session invalid_sequence s = new_session s
close_session session_timed_out s = new_session s
close_session reconnecting s = new_session s
close_session (other code) s = new_session s
close_session authentication_failed s = give_up s
close_session sharding_required s = give_up s
close_session invalid_api_version s = give_up s
close_session invalid_intents s = give_up s
close_session invalid_shard s = give_up s
close_session disallowed_intents s = give_up s
close_session unknown_error s = resume_session s
close_session unknown_opcode s = resume_session s
close_session decode_error s = resume_session s
close_session not_authenticated s = resume_session s
close_session already_authenticated s = resume_session s
close_session rate_limited s = resume_session s

abbrev tell_cache : Gateway → Gateway
tell_cache gw = if gw.caches_shards then emit (shard_disconnected gw.session.resumable) gw else gw

-- `_ws_on_close`
unfoldable pub on_close : Gateway → CloseReason → Gateway
unfolding close_session
on_close gw reason =
    if gw.session.shutdown
    then tell_cache gw
    else tell_cache (with_session gw (close_session reason (record gw.session { shutdown = true })))
