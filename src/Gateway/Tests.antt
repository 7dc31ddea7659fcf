-- ===== src/Gateway/Tests.antt =====
-- Runs of a gateway session, and the theorems about it at them.
use wineberry_discord.Prelude.{
  ◌≡◌, ◌≢◌, ltb, length, refl, true, false, List, [], ◌∷◌, ◌++◌, none, some,
}
use wineberry_discord.Prelude.Int.{pos}
use wineberry_discord.Prelude.Texts.{codes}
use wineberry_discord.Gateway.{
  Result, ok, abort, Gateway, guild_scheduled_event_user_remove, nothing, rate_limited,
  invalid_intents, normal, connect,
}
use wineberry_discord.Gateway.Event.{event_name, payload_event, payload_event-event_name}
use wineberry_discord.Gateway.Close.{reconnect, on_close}
use wineberry_discord.Gateway.Send.{send_identify, send_heartbeat}
use wineberry_discord.Gateway.Receive.{
  Env, Frame, dispatch, hello, string, main_thread, on_hello, on_text, url_size, full_url,
  on_dispatch, on_ready, read_payload, set_resume_url,
}
use wineberry_discord.Gateway.Connect.{init, start, end, started, bad_auth, no_connection}
use wineberry_discord.Gateway.Life.{
  is_fatal, Restarts, end-on_close, Quiet, closes, beats, quiet_run, base_of, bot_info,
  start-reconnect,
}
use wineberry_discord.Gateway.Buffers.{
  Fits, Happening, text, closed, starts, ends, State, history, history-Fits, happen,
}
use wineberry_discord.Gateway.Retry.{Attempts, here, next, attempt, Attempts-start}

-- A session that is connected and ready.
abbrev live : Gateway
live = record (init true) {
  session = record (init true).session {
    is_ready = true;
    id = 5 ∷ 7 ∷ [];
    resume_url = 9 ∷ [];
    base_url = 8 ∷ [];
    remaining = 3;
    max_concurrency = 4;
  };
  seq = 41;
}

abbrev env : Env
env = record { sent = true; timer_id = 2; mode = main_thread; hired = true }

abbrev hello_frame : Frame
hello_frame = record {
  t = none;
  s = none;
  op = some hello;
  session_id = none;
  resume_gateway_url = none;
  heartbeat_interval = some (pos 41250);
  d_is_false = false;
}

payload_event-event_name_example :
    payload_event (codes "GUILD_SCHEDULED_EVENT_USER_REMOVE") ≡ nothing
unfolding event_name
payload_event-event_name_example = payload_event-event_name guild_scheduled_event_user_remove

end-on_close_example :
    ((end (on_close live rate_limited)).1 ≡ false)
    × (is_fatal rate_limited ≡ false
        → Restarts live.session (end (on_close live rate_limited)).0.session true)
unfolding init
end-on_close_example = end-on_close live rate_limited refl

abbrev noise : List Quiet
noise = closes normal ∷ beats true true 3 900 ∷ closes invalid_intents ∷ []

fits_url : ltb (length (base_of (codes "?v=10") (codes "wss://gateway"))) url_size ≡ true
unfolding full_url url_size
fits_url = refl

start-reconnect_example :
    let e = end (quiet_run (reconnect live true) noise) in
    (e.1 ≡ false)
    × Restarts live.session e.0.session true
    × (g : Gateway) × (start
          (codes "?v=10")
          e.0
          (some (bot_info (codes "wss://gateway") (record { remaining = 9; max_concurrency = 2 })))
        ≡ ok (g, started))
    × (g.out ≡ e.0.out ++ connect (9 ∷ []) ∷ [])
    × (g.session.resume_url ≡ [])
unfolding init
start-reconnect_example =
    start-reconnect (codes "?v=10") (codes "wss://gateway")
      (record { remaining = 9; max_concurrency = 2 }) live true noise refl refl fits_url

abbrev ok_or : {A : Type 0} → Result A → A → A
ok_or (ok a) b = a
ok_or abort b = b

abbrev greeted : Gateway
greeted = ok_or (on_hello live hello_frame env) live

abbrev day : List Happening
day =
    starts (
      some (record {
        url = some (codes "wss://gateway");
        start_limit = some (record { remaining = 9; max_concurrency = 2 });
      }))
    ∷ text (some hello_frame) env
    ∷ text
        (some (record hello_frame {
          op = some dispatch;
          t = some (string (codes "READY"));
          s = some 1;
          session_id = some (1 ∷ 2 ∷ []);
        }))
        env
    ∷ closed normal
    ∷ ends
    ∷ []

abbrev waiting : State
waiting = (record { event = nothing; opcode = hello }, init true)

abbrev evening : State
evening = ok_or (history (codes "?v=10") waiting day) waiting

evening_state :
    (evening.1.session.id ≡ 1 ∷ 2 ∷ [])
    × (evening.1.session.resumable ≡ true)
    × (evening.1.session.retry_attempt ≡ 1)
unfolding history happen start init full_url url_size on_text read_payload on_hello send_identify
    on_dispatch payload_event on_ready set_resume_url end on_close send_heartbeat
evening_state = (refl, refl, refl)

history-Fits_example : Fits evening.1.session
unfolding history happen start init full_url url_size on_text read_payload on_hello send_identify
    on_dispatch payload_event on_ready set_resume_url
history-Fits_example =
    history-Fits (codes "?v=10") day (record { event = nothing; opcode = hello }) true evening refl

abbrev lost_once : Gateway
lost_once =
    (end (
      on_close
        (ok_or
          (start [] (init true) (
            some (record {
              url = none;
              start_limit = some (record { remaining = 9; max_concurrency = 2 });
            })))
          (init true, no_connection)).0
        normal)).0

one_attempt : Attempts [] (init true) 1 lost_once
unfolding init attempt start end on_close
one_attempt =
    next
      (some
        (record { url = none; start_limit = some (record { remaining = 9; max_concurrency = 2 }) }))
      normal here refl

no_answer : start [] lost_once none ≡ ok (lost_once, bad_auth)
unfolding init start end on_close
no_answer = refl

Attempts-start_example : (lost_once.session.retry_attempt ≡ 1) × (bad_auth ≢ no_connection)
Attempts-start_example = Attempts-start [] true none bad_auth one_attempt no_answer
