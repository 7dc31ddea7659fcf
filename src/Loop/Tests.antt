-- ===== src/Loop/Tests.antt =====
-- A client whose callback of each cycle shuts it down.
use wineberry_discord.Prelude.{ℕ, ◌*◌, ◌+◌, ◌≡◌, true, false, [], ◌∷◌, none, some, refl}
use wineberry_discord.Prelude.Int.{pos}
use wineberry_discord.Gateway.Close.{shutdown}
use wineberry_discord.Gateway.Connect.{init}
use wineberry_discord.Timer.{Timers}
use wineberry_discord.Timer.Slots.{slots_queue}
use wineberry_discord.Timer.Control.{timer_interval}
use wineberry_discord.Timer.Trigger.{get_next_trigger}
use wineberry_discord.Loop.{
  Client, Wait, groups, World, run_ok, starting, looping, goes_on, returns, turn, run_loop, starts,
  polls, calls_cycle, runs, internal, user, advance,
}
use wineberry_discord.Loop.Waits.{AllWait, run_loop-AllWait}
use wineberry_discord.Loop.Ends.{IsOffline, ended, run_loop-shutdown}

-- A timer every 5 ms, set at the time 1000.
abbrev ticking : Timers slots_queue
ticking =
    (timer_interval slots_queue
      (record { q = []; active = none; skip_update_phase = false; out = [] }) 1000 (some 7) none 0
      (pos 0) (pos 5) (pos 3)).0

abbrev client : Client slots_queue
client = record {
  on_idle = none;
  on_cycle = some 1;
  internal_timers = none;
  user_timers = some ticking.q;
  gw = init false;
  now = 1000;
}

abbrev wait_of : ℕ → Client slots_queue → Wait slots_queue
wait_of us c = record { us = us; from = c.now; timers = groups slots_queue c }

abbrev world : World slots_queue
world = record {
  poll = λ ms c. (wait_of (ms * 1000) c, pos 0, record c { now = c.now + ms * 1000 });
  sleep = λ us c. (wait_of us c, record c { now = c.now + us });
  callback = λ f c. record c { gw = shutdown c.gw };
  run_timers = λ group c. c;
  gateway_start = λ c. (run_ok, c);
  poller_perform = λ c. (run_ok, c);
  requestor_dispatch_responses = λ c. c;
}

-- The lock of the internal timers is taken: the first poll does not wait.
turn_polls :
    (turn slots_queue world client).0
    ≡ polls (wait_of 0 client)
      ∷ calls_cycle 1
      ∷ runs internal
      ∷ runs user
      ∷ polls (wait_of 0 client)
      ∷ []
unfolding turn get_next_trigger wineberry_discord.Timer.Trigger.next_trigger_from
turn_polls = refl

run_loop-AllWait_example : AllWait slots_queue (run_loop slots_queue world 3 starting client).0
run_loop-AllWait_example =
    run_loop-AllWait slots_queue world
      (record { poll_told = λ ms c. refl; sleep_told = λ us c. refl }) 3 starting client

begun :
    run_loop slots_queue world 1 starting client ≡ (starts ∷ [], goes_on (looping run_ok) client)
unfolding run_loop advance
begun = refl

shuts : (turn slots_queue world client).1.gw.session.shutdown ≡ true
unfolding turn shutdown get_next_trigger
shuts = refl

stops : (turn slots_queue world client).1.gw.session.retry_enable ≡ false
unfolding turn shutdown get_next_trigger
stops = refl

run_loop-shutdown_example :
    (run_loop slots_queue world (1 + 6) starting client ≡ (
      starts ∷ (turn slots_queue world client).0,
      returns run_ok (ended slots_queue world (turn slots_queue world client).1),
    ))
    × IsOffline (ended slots_queue world (turn slots_queue world client).1).gw.session
run_loop-shutdown_example =
    run_loop-shutdown slots_queue world 1 5 run_ok client client (starts ∷ []) begun shuts stops
