-- ===== src/Gateway/Connect.antt =====
-- winecord-gateway.c: a session's beginning and end (`winecord_gateway_init`, `_start`, `_end`,
-- `_perform`). The answer to GET /gateway/bot is a `BotInfo`.
use wineberry_discord.Prelude.{
  ℕ, ◌+◌, ◌==◌, ◌&&◌, not, Bool, true, false, [], Option, none, some, ltb, length, if◌then◌else◌,
}
use wineberry_discord.Prelude.Int.{ℤ, pos, negsuc}
use wineberry_discord.Gateway.{
  Result, ok, ◌>>=◌, assert, Text, Gateway, Session, connect, emit, with_session,
}
use wineberry_discord.Gateway.Receive.{full_url, is_empty, url_size}

pub data StartCode : Type 0 where
  started no_connection bad_auth ratelimited : StartCode

-- `struct winecord_session_start_limit`, as far as the session reads it.
pub record StartLimit : Type 0 where
  pub remaining : ℕ
  pub max_concurrency : ℕ

pub record BotInfo : Type 0 where
  pub url : Option Text
  pub start_limit : Option StartLimit

-- `winecord_gateway_init`; the pair of limits of a zeroed session is 0. Its presence update is not
-- sent, since the session is not ready.
unfoldable pub init : Bool → Gateway
init caches_shards = record {
  session = record {
    is_ready = false;
    id = [];
    base_url = [];
    resume_url = [];
    remaining = 0;
    max_concurrency = 0;
    concurrent = 0;
    resumable = false;
    shutdown = false;
    retry_enable = true;
    retry_attempt = 0;
    retry_limit = negsuc 0;
  };
  timer = record {
    hbeat_interval = pos 0;
    hbeat_acknowledged = true;
    now = 0;
    hbeat_last = 0;
    identify_last = 0;
    hbeat_timer = 0;
    ping_ms = pos 0;
  };
  seq = 0;
  caches_shards = caches_shards;
  out = [];
}

-- `attempt == limit`; a negative limit is never met.
abbrev pub at_limit : ℕ → ℤ → Bool
at_limit attempt (pos limit) = attempt == limit
at_limit attempt (negsuc n) = false

abbrev set_base_url : Text → Session → Option Text → Result Session
set_base_url suffix s none = ok s
set_base_url suffix s (some url) =
    let full = full_url suffix url in
    assert (ltb (length full) url_size) (record s { base_url = full })

abbrev set_start_limit : Session → Option StartLimit → Session
set_start_limit s none = s
set_start_limit s (some l) = record s {
  remaining = l.remaining;
  max_concurrency = l.max_concurrency;
}

-- `_winecord_gateway_session_from_json` after the parser.
unfoldable pub session_from_json : Text → Session → BotInfo → Result Session
session_from_json suffix s info = do
  s' ← set_base_url suffix s info.url
  ok (set_start_limit s' info.start_limit)

-- The choice of a URL and `ws_start`.
unfoldable pub open_socket : Gateway → Gateway
open_socket gw =
    if gw.session.resumable && not (is_empty gw.session.resume_url)
    then emit (connect gw.session.resume_url)
        (with_session gw (record gw.session { resume_url = [] }))
    else emit (connect gw.session.base_url) gw

abbrev start_session : Text → Gateway → Option BotInfo → Result (Gateway × StartCode)
start_session suffix gw none = ok (gw, bad_auth)
start_session suffix gw (some info) = do
  s ← session_from_json suffix gw.session info
  let gw' = with_session gw s
  ok (if s.remaining == 0 then (gw', ratelimited) else (open_socket gw', started))

-- `winecord_gateway_start`; `none` is an answer that is not there or cannot be parsed.
unfoldable pub start : Text → Gateway → Option BotInfo → Result (Gateway × StartCode)
unfolding session_from_json open_socket
start suffix gw info =
    if at_limit gw.session.retry_attempt gw.session.retry_limit
    then ok (gw, no_connection)
    else start_session suffix gw info

-- `winecord_gateway_end`; true means that there is no other attempt.
unfoldable pub end : Gateway → Gateway × Bool
end gw =
    let s = record gw.session { shutdown = false; is_ready = false } in
    if s.retry_enable
    then (with_session gw (record s { retry_attempt = s.retry_attempt + 1 }), false)
    else (
      with_session gw (record s { resumable = false; retry_enable = false; retry_attempt = 0 }),
      true,
    )

pub data SocketStatus : Type 0 where
  connecting connected disconnecting disconnected : SocketStatus

-- `winecord_gateway_perform`: whether it returns WINEBERRY_OK, where `ran` is what
-- `ws_multi_socket_run` returns.
unfoldable pub perform : SocketStatus → Bool → Bool
perform connecting ran = ran
perform connected ran = ran
perform _ ran = false
