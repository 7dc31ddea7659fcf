-- ===== src/Timer/Control.antt =====
-- winecord-timer.c: making, changing, starting and stopping timers.
use wineberry_discord.Prelude.{
  ℕ, ◌+◌, ◌*◌, ◌≡◌, ◌==◌, ◌&&◌, ◌||◌, not, Bool, true, false, Option, none, some, ltb,
  if◌then◌else◌, arith, Bool-cases, Option-cases, inl, inr,
}
use wineberry_discord.Prelude.Int.{ℤ, pos, negsuc}
use wineberry_discord.Chash.{is_some}
use wineberry_discord.Timer.{Flags, no_flags, Timer, PriorityQueue, Timers, disabled, is_negative}

-- `WINEBERRY_STATUS_FLAGS`
abbrev pub has_status : Flags → Bool
has_status f = f.canceled || f.deleted

-- `flags & WINEBERRY_TIMER_ALLOWED_FLAGS`
abbrev pub allowed : Flags → Flags
allowed f = record f { canceled = false; tick = false; get = false }

abbrev pub is_only_get : Flags → Bool
is_only_get f =
    f.get && not (f.micro || (f.deleted || (f.delete_auto || (f.fixed || (f.canceled || f.tick)))))

-- A number of milliseconds, or of microseconds, as microseconds.
abbrev pub to_us : Bool → ℤ → ℤ
to_us true n = n
to_us false (pos n) = pos (n * 1000)
to_us false (negsuc n) = negsuc (n * 1000 + 999)

abbrev delayed : ℕ → ℤ → ℤ
delayed now (pos n) = pos (now + n)
delayed now (negsuc n) = disabled

-- The trigger that a control call gives its timer.
unfoldable pub trigger_of : ℕ → Timer → ℤ
trigger_of now timer =
    if has_status timer.flags
    then pos 0
    else (if is_negative timer.delay
        then disabled
        else delayed now (to_us timer.flags.micro timer.delay))

abbrev pub stored : Timer → Timer
stored timer = record timer {
  flags = record (allowed timer.flags) { canceled = timer.flags.canceled };
}

abbrev is_active : Option ℕ → ℕ → Bool
is_active none i = false
is_active (some j) i = j == i

module _ (queue : PriorityQueue) where
  -- The end of `_winecord_timer_ctl_no_lock`: a push for a new timer, an update for another.
  unfoldable pub put : Timers queue → ℕ → Timer → Timers queue × ℕ
  put timers now timer =
      let t = trigger_of now timer in
      if timer.id == 0
      then (let (q', i) = queue.push timers.q t (stored timer) in (record timers { q = q' }, i))
      else (
        record timers {
          q = queue.update timers.q timer.id t (stored timer);
          skip_update_phase = timers.skip_update_phase || is_active timers.active timer.id;
        },
        timer.id,
      )

  -- `_winecord_timer_ctl_no_lock`: the timers, the id that is returned, and the struct of the caller
  -- as the call leaves it.
  unfoldable pub ctl_no_lock : Timers queue → ℕ → Timer → Timers queue × ℕ × Timer
  unfolding put
  ctl_no_lock timers now timer =
      let (timers', i) = put timers now timer in
      if timer.id == 0 then (timers', i, timer) else elim (queue.get timers.q timer.id) [
        | none ↦ (timers, 0, timer)
        | some (t, found) ↦
            let ret = if timer.flags.get then record found { id = timer.id } else timer in
            if is_only_get timer.flags then (timers, timer.id, ret) else (timers', i, ret)
      ]

  -- `winecord_timer_interval`
  unfoldable pub timer_interval :
      Timers queue → ℕ → Option ℕ → Option ℕ → ℕ → ℤ → ℤ → ℤ → Timers queue × ℕ
  unfolding ctl_no_lock
  timer_interval timers now on_tick on_status payload delay interval repeat =
      let (timers', i, ret) = ctl_no_lock timers now (record {
        id = 0;
        on_tick = on_tick;
        on_status_changed = on_status;
        payload = payload;
        delay = delay;
        interval = interval;
        repeat = repeat;
        flags = record no_flags { delete_auto = true };
      }) in
      (timers', i)

  -- `winecord_timer_disable_update_if_active`
  abbrev pub disable_update : Timers queue → ℕ → Timers queue
  disable_update timers i = record timers {
    skip_update_phase = timers.skip_update_phase || is_active timers.active i;
  }

  -- `winecord_timer_start`; the queue's copy of the timer has the `id` that it was stored with.
  unfoldable pub timer_start : Timers queue → ℕ → ℕ → Timers queue × Bool
  unfolding ctl_no_lock
  timer_start timers now i =
      let timers' = disable_update timers i in
      elim (queue.get timers.q i) [
        | none ↦ (timers', false)
        | some (t, timer) ↦
            let (timers'', j, ret) =
              ctl_no_lock timers' now
                (record timer { delay = if is_negative timer.delay then pos 0 else timer.delay }) in
            (timers'', ltb 0 j)
      ]

  -- `winecord_timer_stop`
  unfoldable pub timer_stop : Timers queue → ℕ → Timers queue × Bool
  timer_stop timers i =
      let timers' = disable_update timers i in
      elim (queue.get timers.q i) [
        | none ↦ (timers', false)
        | some (t, timer) ↦ (record timers' { q = queue.update timers.q i disabled timer }, true)
      ]

  -- `winecord_timer_add_flags`, for the flags CANCELED and DELETE.
  unfoldable pub timer_add_flags : Timers queue → ℕ → Bool → Bool → Timers queue × Bool
  timer_add_flags timers i canceled deleted =
      let timers' = disable_update timers i in
      elim (queue.get timers.q i) [
        | none ↦ (timers', false)
        | some (t, timer) ↦ (
          record timers' {
            q = queue.update timers.q i (pos 0) (record timer {
              flags = record timer.flags {
                canceled = timer.flags.canceled || canceled;
                deleted = timer.flags.deleted || deleted;
              };
            });
          },
          true,
        )
      ]

  -- `winecord_timer_cancel`, `winecord_timer_delete` and `winecord_timer_cancel_and_delete`
  abbrev pub timer_cancel : Timers queue → ℕ → Timers queue × Bool
  timer_cancel timers i = timer_add_flags timers i true false

  abbrev pub timer_delete : Timers queue → ℕ → Timers queue × Bool
  timer_delete timers i = timer_add_flags timers i false true

  abbrev pub timer_cancel_and_delete : Timers queue → ℕ → Timers queue × Bool
  timer_cancel_and_delete timers i = timer_add_flags timers i true true

  -- What a control call leaves under each id, if it is more than a GET: nothing changes where the id
  -- it names is not there; otherwise one timer is stored, under the id that it names, or under a new
  -- one.
  pub ctl_no_lock-get :
      (timers : Timers queue) (now : ℕ) (timer : Timer) (j : ℕ)
      → is_only_get timer.flags ≡ false
      → let c = ctl_no_lock timers now timer in
        (queue.get c.0.q j ≡ (
          if (c.1 == j) && not (c.1 == 0)
          then some (trigger_of now timer, stored timer)
          else queue.get timers.q j))
        × ((c.1 == 0) ≡ (not (timer.id == 0) && not (is_some (queue.get timers.q timer.id))))
        × ((if timer.id == 0 then queue.get timers.q c.1 else none) ≡ none)
  unfolding ctl_no_lock
  ctl_no_lock-get timers now timer j g = elim (Bool-cases (timer.id == 0)) [
    | inl z ↦ (
      ground (
        arith,
        z,
        queue.get-push timers.q (trigger_of now timer) (stored timer) j,
        queue.push_pos timers.q (trigger_of now timer) (stored timer),
      ),
      ground (arith, z, queue.push_pos timers.q (trigger_of now timer) (stored timer)),
      ground (arith, z, queue.push_fresh timers.q (trigger_of now timer) (stored timer)),
    )
    | inr n ↦ elim (Option-cases (queue.get timers.q timer.id)) [
      | inl m ↦ (ground (arith, n, m), ground (arith, n, m), ground (arith, n))
      | inr ((t, found), e) ↦ (
        ground (
          arith,
          n,
          e,
          g,
          queue.get-update timers.q timer.id (trigger_of now timer) (stored timer) j,
        ),
        ground (arith, n, e, g),
        ground (arith, n),
      )
    ]
  ]
