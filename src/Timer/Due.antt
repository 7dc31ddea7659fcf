-- ===== src/Timer/Due.antt =====
-- winecord-timer.c: when a timer is due after a control call, and what is stored of it.
use wineberry_discord.Prelude.{
  ℕ, zero, suc, ltb, ◌+◌, ◌*◌, ◌≡◌, ◌==◌, ◌&&◌, ◌||◌, not, Bool, true, false, Option, none, some,
  if◌then◌else◌, arith, refl, Bool-cases, Option-cases, inl, inr,
}
use wineberry_discord.Prelude.Int.{ℤ, pos, negsuc}
use wineberry_discord.Chash.{is_some}
use wineberry_discord.Timer.{Flags, Timer, PriorityQueue, Timers}
use wineberry_discord.Timer.Run.{next_of, count_down, is_zero}
use wineberry_discord.Timer.Control.{trigger_of, is_only_get, put, ctl_no_lock, ctl_no_lock-get}

-- A number of milliseconds, or of microseconds where that flag is set, as microseconds.
abbrev pub in_us : Bool → ℕ → ℕ
in_us true n = n
in_us false n = n * 1000

-- A timer with a flag CANCELED or DELETE is due at once, one with a negative delay is not, and any other
-- is due after its delay.
abbrev pub due : ℕ → Flags → ℤ → ℤ
due now f (pos n) = if f.canceled || f.deleted then pos 0 else pos (now + in_us f.micro n)
due now f (negsuc n) = if f.canceled || f.deleted then pos 0 else negsuc 0

-- The flags TICK and GET are not stored; the other flags are.
abbrev pub kept : Flags → Flags
kept f = record {
  micro = f.micro;
  deleted = f.deleted;
  delete_auto = f.delete_auto;
  fixed = f.fixed;
  canceled = f.canceled;
  tick = false;
  get = false;
}

trigger_of-due_by :
    (now : ℕ) (timer : Timer) (micro : Bool) (delay : ℤ)
    → let f = record timer.flags { micro = micro } in
      trigger_of now (record timer { delay = delay; flags = f }) ≡ due now f delay
unfolding trigger_of
trigger_of-due_by now timer true (pos n) = ground arith
trigger_of-due_by now timer false (pos n) = ground arith
trigger_of-due_by now timer micro (negsuc n) = ground arith

pub trigger_of-due :
    (now : ℕ) (timer : Timer) → trigger_of now timer ≡ due now timer.flags timer.delay
trigger_of-due now timer = trigger_of-due_by now timer timer.flags.micro timer.delay

-- A timer that goes on: it is not cancelled, its delay is not -1, and ticks are left.
abbrev pub goes_on : ℤ → ℤ → Flags → Bool
goes_on (pos n) (pos m) f = not (m == 0) && not f.canceled
goes_on (pos n) (negsuc m) f = not f.canceled
goes_on (negsuc n) (pos m) f = not (n == 0) && (not (m == 0) && not f.canceled)
goes_on (negsuc n) (negsuc m) f = not (n == 0) && not f.canceled

-- The next tick of a timer that has ticked: an interval after the tick was due where the rate is fixed,
-- and after now otherwise; no tick where it does not go on or its interval is negative.
abbrev pub next_tick : ℕ → ℕ → Timer → ℤ
next_tick trigger now timer = elim timer.interval [
  | negsuc n ↦ negsuc 0
  | pos n ↦
      if goes_on timer.delay timer.repeat timer.flags
      then pos ((if timer.flags.fixed then trigger else now) + in_us timer.flags.micro n)
      else negsuc 0
]

next_of-next_tick_by :
    (trigger now : ℕ) (timer : Timer) (micro : Bool) (delay interval repeat : ℤ)
    → let timer' = record timer {
      delay = delay;
      interval = interval;
      repeat = repeat;
      flags = record timer.flags { micro = micro };
    } in
      next_of trigger now timer' ≡ next_tick trigger now timer'
unfolding next_of
next_of-next_tick_by trigger now timer micro (pos n) (negsuc i) r = ground arith
next_of-next_tick_by trigger now timer micro (negsuc n) (negsuc i) r = ground arith
next_of-next_tick_by trigger now timer true (pos n) (pos i) (pos r) = ground arith
next_of-next_tick_by trigger now timer true (pos n) (pos i) (negsuc r) = ground arith
next_of-next_tick_by trigger now timer true (negsuc n) (pos i) (pos r) = ground arith
next_of-next_tick_by trigger now timer true (negsuc n) (pos i) (negsuc r) = ground arith
next_of-next_tick_by trigger now timer false (pos n) (pos i) (pos r) = ground arith
next_of-next_tick_by trigger now timer false (pos n) (pos i) (negsuc r) = ground arith
next_of-next_tick_by trigger now timer false (negsuc n) (pos i) (pos r) = ground arith
next_of-next_tick_by trigger now timer false (negsuc n) (pos i) (negsuc r) = ground arith

pub next_of-next_tick :
    (trigger now : ℕ) (timer : Timer) → next_of trigger now timer ≡ next_tick trigger now timer
next_of-next_tick trigger now timer =
    next_of-next_tick_by trigger now timer timer.flags.micro timer.delay timer.interval timer.repeat

-- The ticks that are left after one: a negative number does not end.
abbrev pub ticks_left : ℤ → ℤ
ticks_left (pos zero) = pos 0
ticks_left (pos (suc n)) = pos n
ticks_left (negsuc n) = negsuc n

pub count_down-ticks_left : (repeat : ℤ) → count_down repeat ≡ ticks_left repeat
count_down-ticks_left (pos zero) = ground arith
count_down-ticks_left (pos (suc n)) = ground arith
count_down-ticks_left (negsuc n) = refl

-- The tick is the last.
abbrev pub is_last : ℤ → Bool
is_last (pos n) = ltb n 2
is_last (negsuc n) = false

pub is_zero-is_last : (repeat : ℤ) → is_zero (count_down repeat) ≡ is_last repeat
is_zero-is_last (pos n) = ground arith
is_zero-is_last (negsuc n) = refl

module _ (queue : PriorityQueue) where
  -- The timer of an id is running.
  abbrev pub is_running : Option ℕ → ℕ → Bool
  is_running none i = false
  is_running (some j) i = j == i

  ctl_no_lock-rest :
      (timers : Timers queue) (now : ℕ) (timer : Timer)
      → is_only_get timer.flags ≡ false
      → let c = ctl_no_lock queue timers now timer in
        let names = not (timer.id == 0) && is_some (queue.get timers.q timer.id) in
        (c.0.out ≡ timers.out)
        × (c.0.active ≡ timers.active)
        × (c.0.skip_update_phase
            ≡ timers.skip_update_phase || (names && is_running timers.active timer.id))
        × ((if names then c.1 == timer.id else true) ≡ true)
  unfolding ctl_no_lock put
  ctl_no_lock-rest timers now timer g = elim (Bool-cases (timer.id == 0)) [
    | inl z ↦ (ground (arith, z), ground (arith, z), ground (arith, z), ground (arith, z))
    | inr n ↦ elim (Option-cases (queue.get timers.q timer.id)) [
      | inl m ↦
          (ground (arith, n, m), ground (arith, n, m), ground (arith, n, m), ground (arith, n, m))
      | inr ((t, found), e) ↦ (
        ground (arith, n, e, g),
        ground (arith, n, e, g),
        ground (arith, n, e, g),
        ground (arith, n, e, g),
      )
    ]
  ]

  -- A control call that is more than a GET. Where it names an id that is not there, it returns 0 and
  -- changes no timer. Otherwise it stores one timer, under the id that it names, or under a new one that
  -- is not 0 where it names none: due at once if it is to be cancelled or deleted, after its delay if
  -- that is not negative, in milliseconds or microseconds by its flag, and not at all if it is; with all
  -- its fields and flags but TICK and GET. The update of the timer that runs is skipped if it is the one
  -- that is stored; the calls so far and the other timers stay.
  pub ctl_no_lock-due :
      (timers : Timers queue) (now : ℕ) (timer : Timer) (j : ℕ)
      → is_only_get timer.flags ≡ false
      → let c = ctl_no_lock queue timers now timer in
        let names = not (timer.id == 0) && is_some (queue.get timers.q timer.id) in
        (queue.get c.0.q j ≡ (
          if (c.1 == j) && not (c.1 == 0)
          then some (due now timer.flags timer.delay, record timer { flags = kept timer.flags })
          else queue.get timers.q j))
        × ((c.1 == 0) ≡ (not (timer.id == 0) && not (is_some (queue.get timers.q timer.id))))
        × ((if names then c.1 == timer.id else true) ≡ true)
        × ((if timer.id == 0 then queue.get timers.q c.1 else none) ≡ none)
        × (c.0.skip_update_phase
            ≡ timers.skip_update_phase || (names && is_running timers.active timer.id))
        × (c.0.active ≡ timers.active)
        × (c.0.out ≡ timers.out)
  ctl_no_lock-due timers now timer j g =
      let (gets, names, fresh) = ctl_no_lock-get queue timers now timer j g in
      let (outs, runs, skips, same) = ctl_no_lock-rest timers now timer g in
      (rw (← trigger_of-due now timer) gets, names, same, fresh, skips, runs, outs)
