-- ===== src/Loop.antt =====
-- source/wineberry/discord/winecord-loop.c: `winecord_run`, a loop around the attempts to connect and
-- one around the rounds of a connection. What the loops call is an argument, `World`: the poller, the
-- callbacks, the runs of the timers and the request queue change the client as they like. A time is in
-- microseconds; the struct of a group of timers whose lock is taken is `none`. The errors of the
-- poller and logging are left out. An `Action` is a call that the loops make. What a call that waits was
-- asked for, `Wait`, is told by the poller and the clock: the loops only pass it on.
pub mod Waits
pub mod Ends
pub mod Wakeup
mod Tests
use wineberry_discord.Prelude.{
  ℕ, zero, suc, ◌/◌, Bool, ◌&&◌, ◌++◌, List, [], ◌∷◌, Option, none, some, ltb, if◌then◌else◌,
}
use wineberry_discord.Prelude.Int.{ℤ}
use wineberry_discord.Gateway.{Gateway}
use wineberry_discord.Gateway.Connect.{end}
use wineberry_discord.Timer.{PriorityQueue}
use wineberry_discord.Timer.Run.{is_zero}
use wineberry_discord.Timer.{is_negative}
use wineberry_discord.Timer.Trigger.{Groups, get_next_trigger}

pub data Group : Type 0 where
  internal user : Group

-- WINEBERRY_OK, or another code.
pub data RunCode : Type 0 where
  run_ok : RunCode
  failed : ℕ → RunCode

module _ (queue : PriorityQueue) where
  -- A wait of at most `us`, with the time at which it begins and the timers that are set then.
  pub record Wait : Type 0 where
    pub us : ℕ
    pub from : ℕ
    pub timers : Groups queue

  pub data Action : Type 0 where
    polls sleeps : Wait → Action
    calls_idle calls_cycle : ℕ → Action
    runs : Group → Action
    starts performs dispatches : Action

  -- What the loops read of `struct winecord`, and the time.
  pub record Client : Type 0 where
    pub on_idle : Option ℕ
    pub on_cycle : Option ℕ
    pub internal_timers : Option queue.Carrier
    pub user_timers : Option queue.Carrier
    pub gw : Gateway
    pub now : ℕ

  abbrev pub groups : Client → Groups queue
  groups c = c.internal_timers ∷ c.user_timers ∷ []

  pub record World : Type 0 where
    pub poll : ℕ → Client → Wait × ℤ × Client
    pub sleep : ℕ → Client → Wait × Client
    pub callback : ℕ → Client → Client
    pub run_timers : Group → Client → Client
    pub gateway_start : Client → RunCode × Client
    pub poller_perform : Client → RunCode × Client
    pub requestor_dispatch_responses : Client → Client

  -- What a part of the loop calls, and the client after it.
  abbrev pub Part : Type 0
  Part = List Action × Client

  module _ (w : World) where
    -- `poll_time`, by `on_idle`
    abbrev pub poll_time : Option ℕ → Client → ℕ
    poll_time none c = get_next_trigger queue (groups c) c.now 60000000
    poll_time (some f) c = 0

    abbrev pub sleep_for : ℕ → Client → Part
    sleep_for us c =
        let (wait, c') = w.sleep us c in
        if ltb 0 us && ltb us 1000 then (sleeps wait ∷ [], c') else ([], c)

    -- Nothing has happened in the poller.
    abbrev pub when_idle : Option ℕ → Client → Part
    when_idle none c = sleep_for (get_next_trigger queue (groups c) c.now 1000) c
    when_idle (some f) c = (calls_idle f ∷ [], w.callback f c)

    abbrev pub after_poll : ℤ × Client → Part
    after_poll (result, c) = if is_zero result then when_idle c.on_idle c else ([], c)

    abbrev pub call_cycle : Option ℕ → Client → Part
    call_cycle none c = ([], c)
    call_cycle (some f) c = (calls_cycle f ∷ [], w.callback f c)

    abbrev pub run_groups : Client → Part
    run_groups c = (runs internal ∷ runs user ∷ [], w.run_timers user (w.run_timers internal c))

    abbrev pub poll_again : Bool → Option ℕ → Client → Part
    poll_again is_lost none c =
        let (wait, result, c') = w.poll 0 c in if is_lost then ([], c) else (polls wait ∷ [], c')
    poll_again is_lost (some f) c = ([], c)

    infixl 5 ◌then◌
    abbrev pub ◌then◌ : Part → (Client → Part) → Part
    (steps, c) then next = let (steps', c') = next c in (steps ++ steps', c')

    -- A round, up to the test of SHUTDOWN.
    unfoldable pub turn : Client → Part
    turn c =
        let (wait, result, c') = w.poll (poll_time c.on_idle c / 1000) c in
        (polls wait ∷ [], c')
        then (λ c. after_poll (result, c))
        then (λ c. call_cycle c.on_cycle c)
        then run_groups
        then (λ c. poll_again (is_negative result) c.on_idle c)

    -- Where `winecord_run` is: before an attempt, or in a connection with the value of `code`.
    pub data Phase : Type 0 where
      starting : Phase
      looping : RunCode → Phase

    pub data Next : Type 0 where
      goes_on : Phase → Client → Next
      returns : RunCode → Client → Next

    abbrev pub end_connection : RunCode → Client → Next
    end_connection code c =
        let (gw, stops) = end c.gw in
        if stops
        then returns code (record c { gw = gw })
        else goes_on starting (record c { gw = gw })

    abbrev pub after_start : RunCode × Client → Next
    after_start (run_ok, c) = goes_on (looping run_ok) c
    after_start (failed code, c) = returns (failed code) c

    abbrev pub after_perform : List Action → RunCode × Client → List Action × Next
    after_perform steps (run_ok, c) = (
      steps ++ performs ∷ dispatches ∷ [],
      goes_on (looping run_ok) (w.requestor_dispatch_responses c),
    )
    after_perform steps (failed code, c) = (steps ++ performs ∷ [], end_connection (failed code) c)

    abbrev pub test_shutdown : RunCode → Part → List Action × Next
    test_shutdown code (steps, c) =
        let go_on = after_perform steps (w.poller_perform c) in
        if c.gw.session.shutdown then (steps, end_connection code c) else go_on

    -- An attempt to connect, or a round of a connection.
    unfoldable pub advance : Phase → Client → List Action × Next
    advance starting c = (starts ∷ [], after_start (w.gateway_start c))
    advance (looping code) c = test_shutdown code (turn c)

    abbrev pub continue :
        (Phase → Client → List Action × Next) → List Action × Next → List Action × Next
    continue rest (steps, returns code c) = (steps, returns code c)
    continue rest (steps, goes_on phase c) =
        let (steps', next) = rest phase c in (steps ++ steps', next)

    -- `winecord_run`, up to a number of attempts and rounds: from `starting`.
    unfoldable pub run_loop : ℕ → Phase → Client → List Action × Next
    run_loop zero phase c = ([], goes_on phase c)
    run_loop (suc n) phase c = continue (run_loop n) (advance phase c)
