-- ===== src/Gateway/Life.antt =====
-- winecord-gateway.c: what becomes of a session after a close, from `_ws_on_close` through
-- `winecord_gateway_end` to the next `winecord_gateway_start`.
use wineberry_discord.Prelude.{
  ℕ, ◌+◌, ◌≡◌, refl, ◌&&◌, not, Bool, true, false, List, [], ◌∷◌, ◌++◌, arith, if◌then◌else◌, ap,
  ◌==◌, some, ltb, length, ◌∙◌,
}
use wineberry_discord.Gateway.{
  Gateway, Session, CloseReason, connect, unknown_error, unknown_opcode, decode_error,
  not_authenticated, authentication_failed, already_authenticated, rate_limited, invalid_shard,
  sharding_required, invalid_api_version, invalid_intents, disallowed_intents, normal, Text, ok,
  with_session,
}
use wineberry_discord.Prelude.Int.{negsuc}
use wineberry_discord.Gateway.Close.{shutdown, reconnect, on_close, on_reconnect}
use wineberry_discord.Gateway.Connect.{
  BotInfo, StartLimit, started, end, open_socket, start, session_from_json,
}
use wineberry_discord.Gateway.Send.{on_heartbeat_timeout}
use wineberry_discord.Gateway.Receive.{is_empty, full_url, url_size}

-- Discord's table of close codes: those after which a client must not reconnect, and those after
-- which it may resume.
abbrev pub is_fatal : CloseReason → Bool
is_fatal authentication_failed = true
is_fatal invalid_shard = true
is_fatal sharding_required = true
is_fatal invalid_api_version = true
is_fatal invalid_intents = true
is_fatal disallowed_intents = true
is_fatal _ = false

abbrev pub may_resume : CloseReason → Bool
may_resume unknown_error = true
may_resume unknown_opcode = true
may_resume decode_error = true
may_resume not_authenticated = true
may_resume already_authenticated = true
may_resume rate_limited = true
may_resume normal = true
may_resume _ = false

-- What a session is after it has ended and will be started again.
pub record Restarts (before after : Session) (resumes : Bool) : Type 0 where
  pub counted : after.retry_attempt ≡ before.retry_attempt + 1
  pub resumes_if : after.resumable ≡ resumes
  pub running : after.shutdown ≡ false
  pub not_ready : after.is_ready ≡ false
  pub kept_id : after.id ≡ before.id
  pub kept_url : after.resume_url ≡ before.resume_url

-- After a close that the client did not ask for, the gateway ends for good exactly when the reason
-- is fatal; otherwise it is started again, one attempt later, with the session's id and resume URL
-- kept, and resumes exactly when the reason allows it.
pub end-on_close :
    (gw : Gateway) (reason : CloseReason)
    → gw.session.shutdown ≡ false
    → ((end (on_close gw reason)).1 ≡ is_fatal reason)
      × (is_fatal reason ≡ false
          → Restarts gw.session (end (on_close gw reason)).0.session (may_resume reason))
unfolding end on_close
end-on_close gw unknown_error h = ground arith
end-on_close gw _ h = ground arith

-- What may reach a session that the client has shut down, other than an order of Discord's to
-- reconnect: closes, and ticks of the heartbeat timer.
pub data Quiet : Type 0 where
  closes : CloseReason → Quiet
  beats : Bool → Bool → ℕ → ℕ → Quiet

abbrev pub quiet_step : Gateway → Quiet → Gateway
quiet_step gw (closes reason) = on_close gw reason
quiet_step gw (beats performed sent timer_id stamp) =
    (on_heartbeat_timeout gw performed sent timer_id stamp).0

abbrev pub quiet_run : Gateway → List Quiet → Gateway
quiet_run gw [] = gw
quiet_run gw (q ∷ qs) = quiet_run (quiet_step gw q) qs

quiet_step-session :
    (gw : Gateway) (q : Quiet) → gw.session.shutdown ≡ true → (quiet_step gw q).session ≡ gw.session
unfolding on_close on_heartbeat_timeout
quiet_step-session gw (closes reason) h = ground arith
quiet_step-session gw (beats performed sent timer_id stamp) h = ground arith

quiet_run-session :
    (gw : Gateway) (qs : List Quiet)
    → gw.session.shutdown ≡ true
    → (quiet_run gw qs).session ≡ gw.session
quiet_run-session gw [] h = refl
quiet_run-session gw (q ∷ qs) h =
    let e = quiet_step-session gw q h in
    quiet_run-session (quiet_step gw q) qs (ap (λ s. s.shutdown) e ∙ h) ∙ e

-- After `winecord_gateway_shutdown`, whatever closes and heartbeat ticks follow, the gateway ends
-- for good and is offline: no bit of its status is set, and it is not ready.
pub end-shutdown :
    (gw : Gateway) (qs : List Quiet)
    → let e = end (quiet_run (shutdown gw) qs) in
      (e.1 ≡ true)
      × (e.0.session.resumable ≡ false)
      × (e.0.session.shutdown ≡ false)
      × (e.0.session.is_ready ≡ false)
      × (e.0.session.retry_attempt ≡ 0)
unfolding end shutdown
end-shutdown gw qs = ground (arith, quiet_run-session (shutdown gw) qs refl)

-- An order of Discord's to reconnect undoes a shutdown that the client has asked for but that has
-- not ended yet: the gateway is started again and resumes the session.
pub on_reconnect-shutdown :
    (gw : Gateway)
    → ((end (on_reconnect (shutdown gw))).1 ≡ false)
      × ((end (on_reconnect (shutdown gw))).0.session.resumable ≡ true)
unfolding end shutdown on_reconnect
on_reconnect-shutdown gw = ground arith

-- The answer of the server: a URL, and the sessions that remain.
abbrev pub bot_info : Text → StartLimit → BotInfo
bot_info url limit = record { url = some url; start_limit = some limit }

-- The base URL that the answer gives.
abbrev pub base_of : Text → Text → Text
base_of suffix url = full_url suffix url

-- After `winecord_gateway_reconnect` of a session without a limit of retries, whatever closes and
-- heartbeat ticks follow, and an answer of the server with a URL that fits its buffer and sessions that
-- remain: the gateway is started again, resuming or not as asked; the socket is opened at the resume URL
-- if it was asked to resume and there is one, and at the URL of the answer otherwise, and the resume URL
-- is used once.
pub start-reconnect :
    (suffix url : Text) (limit : StartLimit) (gw : Gateway) (resume : Bool) (qs : List Quiet)
    → gw.session.retry_limit ≡ negsuc 0
    → (limit.remaining == 0) ≡ false
    → ltb (length (base_of suffix url)) url_size ≡ true
    → let e = end (quiet_run (reconnect gw resume) qs) in
      (e.1 ≡ false)
      × Restarts gw.session e.0.session resume
      × (g : Gateway) × (start suffix e.0 (some (bot_info url limit)) ≡ ok (g, started))
      × (g.out
          ≡ e.0.out
            ++ connect (
                if resume && not (is_empty gw.session.resume_url)
                then gw.session.resume_url
                else base_of suffix url)
              ∷ [])
      × (g.session.resume_url ≡ (if resume then [] else gw.session.resume_url))
unfolding end reconnect open_socket start session_from_json
start-reconnect suffix url limit gw resume qs unlimited remains fits =
    let same = quiet_run-session (reconnect gw resume) qs refl in
    let e = end (quiet_run (reconnect gw resume) qs) in
    let s = record e.0.session {
      base_url = base_of suffix url;
      remaining = limit.remaining;
      max_concurrency = limit.max_concurrency;
    } in
    (
      ground (arith, same),
      ground (arith, same),
      open_socket (with_session e.0 s),
      ground (arith, same, unlimited, remains, fits),
      ground (arith, same),
      ground (arith, same),
    )
