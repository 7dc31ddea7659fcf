-- ===== src/Timer/Fate.antt =====
-- winecord-timer.c: what one round of `winecord_timers_run` makes of the timer that is due.
use wineberry_discord.Prelude.{
  ℕ, suc, ◌≡◌, ◌==◌, ◌&&◌, ◌||◌, Bool, true, false, List, [], ◌∷◌, ◌++◌, Option, none, some,
  if◌then◌else◌, arith, refl, Bool-cases, inl, inr, append_assoc, append-nil,
}
use wineberry_discord.Prelude.Int.{ℤ}
use wineberry_discord.Chash.{is_some}
use wineberry_discord.Timer.{Flags, Timer, PriorityQueue, Timers, Call, calls}
use wineberry_discord.Timer.Control.{has_status}
use wineberry_discord.Timer.Due.{
  kept, next_tick, ticks_left, is_last, next_of-next_tick, count_down-ticks_left, is_zero-is_last,
}
use wineberry_discord.Timer.Run.{
  count_down, next_of, Callbacks, Visit, settled, restarts, call, delete, update_phase, after_call,
  visit_by, visit_once, visit,
}

module _ (queue : PriorityQueue) (callbacks : Callbacks queue) where
  after_call-canceled :
      (trigger now : ℕ) (prev : Flags) (called : Timers queue × Timer)
      → prev.canceled ≡ true
      → (timers' : Timers queue) × (after_call queue callbacks trigger now prev called
          ≡ settled timers')
  after_call-canceled trigger now prev (timers, ret) h =
      elim (Bool-cases timers.skip_update_phase) [
        | inl y ↦ (record timers { skip_update_phase = false }, rw y)
        | inr n ↦ (
          update_phase queue callbacks timers trigger now prev
              (record ret { flags = record ret.flags { tick = false } }),
          rw (n, h),
        )
      ]

  after_call-restarts :
      (trigger now : ℕ) (prev : Flags) (called : Timers queue × Timer) {timers' : Timers queue}
      {timer' : Timer}
      → after_call queue callbacks trigger now prev called ≡ restarts timers' timer'
      → timer'.flags.canceled ≡ true
  after_call-restarts trigger now prev (timers, ret) e = ground (arith, e)

  visit_by-canceled :
      (status deleted : Bool) (timers : Timers queue) (trigger now : ℕ) (timer : Timer)
      → status ≡ true
      → timer.flags.canceled ≡ true
      → (timers' : Timers queue) × (visit_by queue callbacks status deleted timers trigger now timer
          ≡ settled timers')
  visit_by-canceled true true timers trigger now timer b h =
      (delete queue callbacks timers timer, refl)
  visit_by-canceled true false timers trigger now timer b h =
      after_call-canceled trigger now timer.flags
        (call queue callbacks timer.on_status_changed timers timer) h
  visit_by-canceled false deleted timers trigger now timer b h = cc

  visit_by-restarts :
      (status deleted : Bool) (timers : Timers queue) (trigger now : ℕ) (timer : Timer)
      {timers' : Timers queue} {timer' : Timer}
      → visit_by queue callbacks status deleted timers trigger now timer ≡ restarts timers' timer'
      → timer'.flags.canceled ≡ true
  visit_by-restarts true true timers trigger now timer e = cc
  visit_by-restarts true false timers trigger now timer e =
      after_call-restarts trigger now timer.flags
        (call queue callbacks timer.on_status_changed timers timer) e
  visit_by-restarts false deleted timers trigger now timer e =
      let timer' = record timer {
        repeat = count_down timer.repeat;
        flags = record timer.flags { tick = true };
      } in
      after_call-restarts trigger now timer'.flags
        (call queue callbacks timer.on_tick timers timer') e

  visit_from :
      (fuel : ℕ) (timers : Timers queue) (trigger now : ℕ) (timer : Timer) (first : Visit queue)
      → visit_once queue callbacks timers trigger now timer ≡ first
      → (timers' : Timers queue) × (visit queue callbacks 2 timers trigger now timer ≡ some timers')
        × (visit queue callbacks (suc (suc fuel)) timers trigger now timer ≡ some timers')
  unfolding visit
  visit_from fuel timers trigger now timer (settled timers') e =
      (timers', ground (arith, e), ground (arith, e))
  visit_from fuel timers trigger now timer (restarts timers' timer') e =
      let c : timer'.flags.canceled ≡ true =
        visit_by-restarts (has_status timer.flags) timer.flags.deleted timers trigger now timer
          {timers' = timers'} {timer' = timer'} (unfold visit_once in e) in
      let (timers'', e') =
        visit_by-canceled (has_status timer'.flags) timer'.flags.deleted timers' trigger now timer'
          (ground (arith, c)) c in
      let e'' : visit_once queue callbacks timers' trigger now timer' ≡ settled timers'' =
        unfold visit_once in e' in
      (timers'', ground (arith, e, e''), ground (arith, e, e''))

  -- Whatever the callbacks do, a timer is visited anew at most once in its round: two visits are
  -- enough, and more fuel changes nothing.
  pub visit_total :
      (fuel : ℕ) (timers : Timers queue) (trigger now : ℕ) (timer : Timer)
      → (timers' : Timers queue) × (visit queue callbacks 2 timers trigger now timer ≡ some timers')
        × (visit queue callbacks (suc (suc fuel)) timers trigger now timer ≡ some timers')
  visit_total fuel timers trigger now timer = visit_from fuel timers trigger now timer _ refl

-- A callback that is there is called.
abbrev spoken : Option ℕ → ℕ → Bool → Bool → Bool → List Call
spoken none i tick canceled deleted = []
spoken (some f) i tick canceled deleted = calls f i tick canceled deleted ∷ []

-- A timer is removed in its round if it was deleted, or if it goes by itself and was cancelled or has
-- ticked for the last time.
abbrev pub is_removed : Timer → Bool
is_removed timer =
    timer.flags.deleted
    || (timer.flags.delete_auto && (timer.flags.canceled || is_last timer.repeat))

-- A deleted timer tells its status; a cancelled one does, and tells it again if it goes by itself; any
-- other ticks, and tells its status if it goes.
abbrev pub calls_of : Timer → List Call
calls_of timer =
    let f = timer.flags in
    if f.deleted
    then spoken timer.on_status_changed timer.id f.tick f.canceled true
    else (if f.canceled
        then spoken timer.on_status_changed timer.id f.tick true false
        else spoken timer.on_tick timer.id true false false)
      ++ (if is_removed timer then spoken timer.on_status_changed timer.id false false true else [])

-- The timer after its round: one tick less, if it was not cancelled.
abbrev pub ticked : Timer → Timer
ticked timer = record timer {
  repeat = if timer.flags.canceled then timer.repeat else ticks_left timer.repeat;
}

-- What stays of it, and the time of its next tick, if there is one.
abbrev pub left_of : ℕ → ℕ → Timer → Option (ℤ × Timer)
left_of trigger now timer =
    if is_removed timer
    then none
    else some (
      next_tick trigger now (ticked timer),
      record (ticked timer) { flags = record (kept timer.flags) { canceled = false } },
    )

module _ (queue : PriorityQueue) where
  -- Callbacks that leave the timers and their own struct alone.
  abbrev pub quiet : Callbacks queue
  quiet = record { effect = λ f timers timer. (timers, timer) }

  abbrev quiet_end : Timers queue → ℕ → ℕ → Timer → Timers queue
  quiet_end timers trigger now timer =
      let timer' = record (ticked timer) { flags = record timer.flags { tick = false } } in
      record timers {
        q =
            if is_removed timer
            then queue.del timers.q timer.id
            else queue.update timers.q timer.id (next_of trigger now timer')
                (record timer' { flags = record (kept timer.flags) { canceled = false } });
        skip_update_phase = false;
        out = timers.out ++ calls_of timer;
      }

  visit-quiet_end :
      (timers : Timers queue) (trigger now : ℕ) (timer : Timer)
      → timers.skip_update_phase ≡ false
      → visit_once queue quiet timers trigger now timer
        ≡ settled (quiet_end timers trigger now timer)
  unfolding visit_once update_phase
  visit-quiet_end timers trigger now timer s =
      let f = timer.flags in
      ground (
        arith,
        s,
        count_down-ticks_left timer.repeat,
        is_zero-is_last timer.repeat,
        append-nil timers.out,
        append-nil (spoken timer.on_tick timer.id true false false),
        append-nil (spoken timer.on_status_changed timer.id f.tick true false),
        append_assoc timers.out (spoken timer.on_tick timer.id true false false)
            (spoken timer.on_status_changed timer.id false false true),
        append_assoc timers.out (spoken timer.on_status_changed timer.id f.tick true false)
            (spoken timer.on_status_changed timer.id false false true),
      )

  -- A round of the run loop for the timer that is due, at callbacks that leave the timers alone, where
  -- the update phase is not to be skipped and the timer's id is in the queue: it ends; exactly
  -- the calls are made that its flags and its repeats ask for, in order; what stays under its id is
  -- nothing, or the timer with a tick less, due an interval after its trigger if its rate is fixed, an
  -- interval after now if not, and not at all if it does not go on; no other timer changes.
  pub visit-quiet :
      (timers : Timers queue) (trigger now j : ℕ) (timer : Timer)
      → timers.skip_update_phase ≡ false
      → is_some (queue.get timers.q timer.id) ≡ true
      → (timers' : Timers queue) × (visit queue quiet 2 timers trigger now timer ≡ some timers')
        × (timers'.out ≡ timers.out ++ calls_of timer)
        × (queue.get timers'.q j
            ≡ (if timer.id == j then left_of trigger now timer else queue.get timers.q j))
        × (timers'.skip_update_phase ≡ false)
  unfolding visit
  visit-quiet timers trigger now j timer s h =
      let timer' = record (ticked timer) { flags = record timer.flags { tick = false } } in
      (
        quiet_end timers trigger now timer,
        ground (arith, visit-quiet_end timers trigger now timer s),
        refl,
        ground (
          arith,
          h,
          next_of-next_tick trigger now timer',
          queue.get-del timers.q timer.id j,
          queue.get-update timers.q timer.id (next_of trigger now timer')
              (record timer' { flags = record (kept timer.flags) { canceled = false } }) j,
        ),
        refl,
      )
