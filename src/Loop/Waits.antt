-- ===== src/Loop/Waits.antt =====
-- winecord-loop.c: how long the loops wait.
use wineberry_discord.Prelude.{
  ℕ, zero, suc, ◌-◌, ◌*◌, ◌/◌, subst, sym, ◌≡◌, ◌≤◌, ◌&&◌, ◌++◌, Bool, true, false, List, [], ◌∷◌,
  Option, none, some, ltb, arith, get_elem?, Bool-cases, inl, inr, if◌then◌else◌,
}
use wineberry_discord.Prelude.Int.{ℤ, pos}
use wineberry_discord.Timer.{Timer, PriorityQueue, is_negative}
use wineberry_discord.Timer.Run.{is_zero}
use wineberry_discord.Timer.Trigger.{Groups, get_next_trigger, get_next_trigger-IsSoonest}
use wineberry_discord.Loop.{
  run_ok, failed, RunCode, Action, Wait, polls, sleeps, Client, groups, World, Part, poll_time,
  sleep_for, when_idle, after_poll, call_cycle, run_groups, poll_again, ◌then◌, turn, Phase,
  starting, looping, Next, goes_on, returns, after_perform, test_shutdown, advance, continue,
  run_loop,
}

module _ (queue : PriorityQueue) where
  -- A wait of `us` from `now` on is not longer than a minute, and not longer than any timer of the
  -- groups that is enabled has left.
  pub record IsInTime (us now : ℕ) (timers : Groups queue) : Type 0 where
    pub bounded : us ≤ 60000000
    pub in_time :
        (n j : ℕ) (q : queue.Carrier) (t : ℕ) (timer : Timer)
        → get_elem? timers n ≡ some (some q)
        → queue.get q j ≡ some (pos t, timer)
        → us ≤ t - now

  abbrev pub Waits : Action queue → Type 0
  Waits (polls wait) = IsInTime wait.us wait.from wait.timers
  Waits (sleeps wait) = IsInTime wait.us wait.from wait.timers
  Waits _ = Unit

  -- The poller and the clock wait at most as long as they are asked to: the poller is asked in
  -- milliseconds, the clock in microseconds.
  pub record Tells (w : World queue) : Type 0 where
    pub poll_told :
        (ms : ℕ) (c : Client queue)
        → (w.poll ms c).0 ≡ record { us = ms * 1000; from = c.now; timers = groups queue c }
    pub sleep_told :
        (us : ℕ) (c : Client queue)
        → (w.sleep us c).0 ≡ record { us = us; from = c.now; timers = groups queue c }

  abbrev pub AllWait : List (Action queue) → Type 0
  AllWait [] = Unit
  AllWait (step ∷ steps) = Waits step × AllWait steps

  AllWait-append :
      (steps steps' : List (Action queue))
      → AllWait steps
      → AllWait steps'
      → AllWait (steps ++ steps')
  AllWait-append [] steps' h h' = h'
  AllWait-append (step ∷ steps) steps' (h, hs) h' = (h, AllWait-append steps steps' hs h')

  next_trigger-IsInTime :
      (timers : Groups queue) (now max_time : ℕ)
      → max_time ≤ 60000000
      → IsInTime (get_next_trigger queue timers now max_time) now timers
  next_trigger-IsInTime timers now max_time le =
      let soonest = get_next_trigger-IsSoonest queue timers now max_time in
      record { bounded = omega (arith, soonest.within, le); in_time = soonest.in_time }

  zero-IsInTime : (timers : Groups queue) (now : ℕ) → IsInTime 0 now timers
  zero-IsInTime timers now = record {
    bounded = omega arith;
    in_time = λ n j q t timer e g. omega arith;
  }

  -- A shorter wait is in time too.
  IsInTime-le :
      (us us' now : ℕ) (timers : Groups queue)
      → us' ≤ us
      → IsInTime us now timers
      → IsInTime us' now timers
  IsInTime-le us us' now timers le h = record {
    bounded = omega (arith, le, h.bounded);
    in_time = λ n j q t timer e g. omega (arith, le, h.in_time n j q t timer e g);
  }

  module _ (w : World queue) (tells : Tells w) where
    polls-Waits :
        (ms : ℕ) (c : Client queue)
        → IsInTime (ms * 1000) c.now (groups queue c)
        → Waits (polls (w.poll ms c).0)
    polls-Waits ms c h =
        subst (λ (wait : Wait queue). IsInTime wait.us wait.from wait.timers)
          (sym (tells.poll_told ms c)) h

    sleeps-Waits :
        (us : ℕ) (c : Client queue)
        → IsInTime us c.now (groups queue c)
        → Waits (sleeps (w.sleep us c).0)
    sleeps-Waits us c h =
        subst (λ (wait : Wait queue). IsInTime wait.us wait.from wait.timers)
          (sym (tells.sleep_told us c)) h

    poll_time-IsInTime :
        (idle : Option ℕ) (c : Client queue)
        → IsInTime (poll_time queue w idle c) c.now (groups queue c)
    poll_time-IsInTime none c = next_trigger-IsInTime (groups queue c) c.now 60000000 (omega arith)
    poll_time-IsInTime (some f) c = zero-IsInTime (groups queue c) c.now

    sleep_for-AllWait :
        (us : ℕ) (c : Client queue)
        → IsInTime us c.now (groups queue c)
        → AllWait (sleep_for queue w us c).0
    sleep_for-AllWait us c h = elim (Bool-cases (ltb 0 us && ltb us 1000)) [
      | inl e ↦ rw e (sleeps-Waits us c h, tt)
      | inr e ↦ rw e tt
    ]

    when_idle-AllWait : (idle : Option ℕ) (c : Client queue) → AllWait (when_idle queue w idle c).0
    when_idle-AllWait none c =
        sleep_for-AllWait _ c (next_trigger-IsInTime (groups queue c) c.now 1000 (omega arith))
    when_idle-AllWait (some f) c = (tt, tt)

    after_poll-AllWait :
        (result : ℤ) (c : Client queue) → AllWait (after_poll queue w (result, c)).0
    after_poll-AllWait result c = elim (Bool-cases (is_zero result)) [
      | inl e ↦ rw e (when_idle-AllWait c.on_idle c)
      | inr e ↦ rw e tt
    ]

    call_cycle-AllWait : (cb : Option ℕ) (c : Client queue) → AllWait (call_cycle queue w cb c).0
    call_cycle-AllWait none c = tt
    call_cycle-AllWait (some f) c = (tt, tt)

    poll_again-AllWait :
        (is_lost : Bool) (idle : Option ℕ) (c : Client queue)
        → AllWait (poll_again queue w is_lost idle c).0
    poll_again-AllWait true none c = tt
    poll_again-AllWait false none c = (polls-Waits 0 c (zero-IsInTime (groups queue c) c.now), tt)
    poll_again-AllWait is_lost (some f) c = tt

    run_groups-AllWait : (c : Client queue) → AllWait (run_groups queue w c).0
    run_groups-AllWait c = (tt, (tt, tt))

    then-AllWait :
        (part : Part queue) (next : Client queue → Part queue)
        → AllWait part.0
        → ((c : Client queue) → AllWait (next c).0)
        → AllWait (◌then◌ queue w part next).0
    then-AllWait (steps, c) next h hs = AllWait-append steps (next c).0 h (hs c)

    turn-AllWait : (c : Client queue) → AllWait (turn queue w c).0
    unfolding turn
    turn-AllWait c =
        let us = poll_time queue w c.on_idle c in
        let ms = us / 1000 in
        let (wait, result, c') = w.poll ms c in
        let first : Part queue = (polls wait ∷ [], c') in
        let waits : AllWait first.0 = (
          polls-Waits ms c (
              IsInTime-le us (ms * 1000) c.now (groups queue c) (omega arith)
                (poll_time-IsInTime c.on_idle c)),
          tt,
        ) in
        let idle = λ (c : Client queue). after_poll queue w (result, c) in
        let cycle = λ (c : Client queue). call_cycle queue w c.on_cycle c in
        let again = λ (c : Client queue). poll_again queue w (is_negative result) c.on_idle c in
        let p1 = ◌then◌ queue w first idle in
        let p2 = ◌then◌ queue w p1 cycle in
        let p3 = ◌then◌ queue w p2 (run_groups queue w) in
        let w1 = then-AllWait first idle waits (after_poll-AllWait result) in
        let w2 = then-AllWait p1 cycle w1 (λ c. call_cycle-AllWait c.on_cycle c) in
        let w3 = then-AllWait p2 (run_groups queue w) w2 run_groups-AllWait in
        then-AllWait p3 again w3 (λ c. poll_again-AllWait (is_negative result) c.on_idle c)

    after_perform-AllWait :
        (steps : List (Action queue)) (r : RunCode × Client queue)
        → AllWait steps
        → AllWait (after_perform queue w steps r).0
    after_perform-AllWait steps (run_ok, c) h = AllWait-append steps _ h (tt, (tt, tt))
    after_perform-AllWait steps (failed code, c) h = AllWait-append steps _ h (tt, tt)

    either-AllWait :
        (b : Bool) (r r' : List (Action queue) × Next queue w)
        → AllWait r.0
        → AllWait r'.0
        → AllWait (if b then r else r').0
    either-AllWait true r r' h h' = h
    either-AllWait false r r' h h' = h'

    test_shutdown-AllWait :
        (code : RunCode) (part : Part queue)
        → AllWait part.0
        → AllWait (test_shutdown queue w code part).0
    test_shutdown-AllWait code (steps, c) h =
        either-AllWait c.gw.session.shutdown _ _ h
          (after_perform-AllWait steps (w.poller_perform c) h)

    advance-AllWait :
        (phase : Phase queue w) (c : Client queue) → AllWait (advance queue w phase c).0
    unfolding advance
    advance-AllWait starting c = (tt, tt)
    advance-AllWait (looping code) c = test_shutdown-AllWait code (turn queue w c) (turn-AllWait c)

    continue-AllWait :
        (rest : Phase queue w → Client queue → List (Action queue) × Next queue w)
        (r : List (Action queue) × Next queue w)
        → ((phase : Phase queue w) (c : Client queue) → AllWait (rest phase c).0)
        → AllWait r.0
        → AllWait (continue queue w rest r).0
    continue-AllWait rest (steps, returns code c) h h' = h'
    continue-AllWait rest (steps, goes_on phase c) h h' = AllWait-append steps _ h' (h phase c)

    -- In however many attempts and rounds of `winecord_run`, whatever the callbacks, the timers and
    -- the poller do to the client: every wait that the poller, asked in milliseconds, and the clock are
    -- asked for is at most a minute, and at most what any enabled timer of either group has left when
    -- it begins, where the lock of the group is not taken.
    pub run_loop-AllWait :
        (n : ℕ) (phase : Phase queue w) (c : Client queue) → AllWait (run_loop queue w n phase c).0
    unfolding run_loop
    run_loop-AllWait zero phase c = tt
    run_loop-AllWait (suc n) phase c =
        continue-AllWait (run_loop queue w n) (advance queue w phase c) (run_loop-AllWait n)
          (advance-AllWait phase c)
