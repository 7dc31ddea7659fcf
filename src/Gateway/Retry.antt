-- ===== src/Gateway/Retry.antt =====
-- winecord-gateway.c: how often a session that never becomes ready is started.
use wineberry_discord.Prelude.{
  ℕ, ◌+◌, ◌≡◌, ◌≢◌, Bool, false, Option, none, some, arith, if◌then◌else◌, suc,
}
use wineberry_discord.Gateway.{Result, ok, ◌>>=◌, passed, Text, Gateway, CloseReason, unknown_error}
use wineberry_discord.Gateway.Close.{on_close}
use wineberry_discord.Gateway.Connect.{
  BotInfo, StartCode, started, no_connection, init, start, end, session_from_json, open_socket,
  at_limit,
}

module _ (suffix : Text) where
  -- A connection that is started and lost before it is ready; `none` where it is not started, or
  -- not to be started again.
  abbrev lost : CloseReason → Gateway × StartCode → Option Gateway
  lost reason (gw, started) =
      let (gw', stops) = end (on_close gw reason) in if stops then none else some gw'
  lost reason (gw, _) = none

  unfoldable pub attempt : Gateway → Option BotInfo × CloseReason → Result (Option Gateway)
  attempt gw (info, reason) = start suffix gw info >>= λ r. ok (lost reason r)

  -- The connection attempts of `winecord_run`, each started and lost.
  pub data Attempts (gw : Gateway) : ℕ → Gateway → Type 0 where
    here : Attempts gw 0 gw
    next :
        {n : ℕ} {g g' : Gateway} (info : Option BotInfo) (reason : CloseReason)
        → Attempts gw n g
        → attempt g (info, reason) ≡ ok (some g')
        → Attempts gw (suc n) g'

  -- What an attempt changes of the two retry counters.
  abbrev Counts : Gateway → ℕ → Gateway → Type 0
  Counts gw n g =
      (g.session.retry_attempt ≡ gw.session.retry_attempt + n)
      × (g.session.retry_limit ≡ gw.session.retry_limit)

  on_close-Counts : (gw : Gateway) (reason : CloseReason) → Counts gw 0 (on_close gw reason)
  unfolding on_close
  on_close-Counts gw unknown_error = ground arith
  on_close-Counts gw _ = ground arith

  start-Counts :
      (gw g : Gateway) (info : Option BotInfo) (code : StartCode)
      → start suffix gw info ≡ ok (g, code)
      → Counts gw 0 g
  unfolding start session_from_json open_socket
  start-Counts gw g info code e = ground arith

  start_started :
      (gw g : Gateway) (info : Option BotInfo)
      → start suffix gw info ≡ ok (g, started)
      → at_limit gw.session.retry_attempt gw.session.retry_limit ≡ false
  unfolding start
  start_started gw g info e = ground arith

  lost-Counts :
      (g g' : Gateway) (reason : CloseReason) (code : StartCode)
      → lost reason (g, code) ≡ some g'
      → (code ≡ started) × Counts g 1 g'
  unfolding end
  lost-Counts g g' reason started e = ground (arith, on_close-Counts g reason)
  lost-Counts g g' reason _ e = cc

  started-Counts :
      (g mid g' : Gateway) (info : Option BotInfo) (reason : CloseReason) (code : StartCode)
      → start suffix g info ≡ ok (mid, code)
      → lost reason (mid, code) ≡ some g'
      → Counts g 1 g' × (at_limit g.session.retry_attempt g.session.retry_limit ≡ false)
  started-Counts g mid g' info reason code first second =
      let (is_started, after) = lost-Counts mid g' reason code second in
      let before = start-Counts g mid info code first in
      let below = start_started g mid info (rw is_started at first) in (ground arith, below)

  attempt-Counts :
      (g g' : Gateway) (info : Option BotInfo) (reason : CloseReason)
      → attempt g (info, reason) ≡ ok (some g')
      → Counts g 1 g' × (at_limit g.session.retry_attempt g.session.retry_limit ≡ false)
  unfolding attempt
  attempt-Counts g g' info reason e =
      let two = passed (start suffix g info) _ e in
      started-Counts g two.between.0 g' info reason two.between.1 two.before (cc two.after)

  Attempts-Counts : {gw : Gateway} {n : ℕ} {g : Gateway} → Attempts gw n g → Counts gw n g
  Attempts-Counts here = ground arith
  Attempts-Counts (next {g = mid} {g' = g} info reason before last) =
      ground (arith, Attempts-Counts before, attempt-Counts mid g info reason last)

  -- Without a limit the start is not refused for the number of attempts.
  start_unlimited :
      (gw g : Gateway) (info : Option BotInfo) (code : StartCode)
      → at_limit gw.session.retry_attempt gw.session.retry_limit ≡ false
      → start suffix gw info ≡ ok (g, code)
      → code ≢ no_connection
  unfolding start session_from_json open_socket
  start_unlimited gw g info code n e c = absurd (ground (arith, n, e, c))

  -- A new session that is started and lost any number of times, each time before it is ready: the
  -- attempts are counted, and the next start is never refused for their number, whatever the answer of
  -- the server.
  pub Attempts-start :
      (caches_shards : Bool) {n : ℕ} {g g' : Gateway} (info : Option BotInfo) (code : StartCode)
      → Attempts (init caches_shards) n g
      → start suffix g info ≡ ok (g', code)
      → (g.session.retry_attempt ≡ n) × (code ≢ no_connection)
  unfolding init
  Attempts-start caches_shards {g = g} {g' = g'} info code a e =
      let counts = Attempts-Counts a in
      (ground (arith, counts), start_unlimited g g' info code (ground (arith, counts)) e)
