-- ===== src/Loop/Wakeup.antt =====
-- winecord-loop.c: the timer that wakes the client, a call of the timers' control, and the setters of
-- the loop's callbacks. The callback of the timer is the number `wake_cb`.
use wineberry_discord.Prelude.{
  ℕ, ◌≡◌, ◌==◌, ◌&&◌, not, true, false, Option, none, some, arith, refl, Bool-cases, inl, inr,
  if◌then◌else◌,
}
use wineberry_discord.Prelude.Int.{ℤ, pos}
use wineberry_discord.Chash.{is_some}
use wineberry_discord.Timer.{Timer, PriorityQueue, Timers, no_flags, disabled}
use wineberry_discord.Timer.Control.{trigger_of, stored, put, ctl_no_lock, ctl_no_lock-get}
use wineberry_discord.Loop.{Client}

abbrev pub wake_cb : ℕ
wake_cb = 0

-- The struct that both functions fill in: the fields that they do not name are 0.
abbrev pub wake_timer : ℕ → ℤ → Timer
wake_timer id delay = record {
  id = id;
  on_tick = some wake_cb;
  on_status_changed = none;
  payload = 0;
  delay = delay;
  interval = pos 0;
  repeat = pos 0;
  flags = no_flags;
}

-- `client->wakeup_timer`
pub record Wakeup : Type 0 where
  pub cb : Option ℕ
  pub id : ℕ

module _ (queue : PriorityQueue) where
  -- `winecord_set_on_idle` and `winecord_set_on_cycle`
  abbrev pub set_on_idle : Option ℕ → Client queue → Client queue
  set_on_idle cb c = record c { on_idle = cb }

  abbrev pub set_on_cycle : Option ℕ → Client queue → Client queue
  set_on_cycle cb c = record c { on_cycle = cb }

  -- `winecord_set_next_wakeup`, on the internal timers
  unfoldable pub set_next_wakeup : ℕ → ℤ → Timers queue × Wakeup → Timers queue × Wakeup
  set_next_wakeup now delay (timers, wakeup) =
      let (timers', id, ret) = ctl_no_lock queue timers now (wake_timer wakeup.id delay) in
      (timers', record wakeup { id = id })

  -- `winecord_set_on_wakeup`
  unfoldable pub set_on_wakeup : ℕ → Option ℕ → Timers queue × Wakeup → Timers queue × Wakeup
  set_on_wakeup now cb (timers, wakeup) =
      let stopped = (ctl_no_lock queue timers now (wake_timer wakeup.id disabled)).0 in
      (if wakeup.id == 0 then timers else stopped, record wakeup { cb = cb })

  -- The wake-up timer, if there is one, is in the queue.
  abbrev pub IsThere : Timers queue × Wakeup → Type 0
  IsThere (timers, wakeup) =
      not (wakeup.id == 0) && not (is_some (queue.get timers.q wakeup.id)) ≡ false

  -- A control call for an id that is in the queue returns the id.
  ctl_no_lock-same_id :
      (timers : Timers queue) (now id : ℕ) (delay : ℤ)
      → (id == 0) ≡ false
      → is_some (queue.get timers.q id) ≡ true
      → (ctl_no_lock queue timers now (wake_timer id delay)).1 ≡ id
  unfolding ctl_no_lock put
  ctl_no_lock-same_id timers now id delay n there = ground (arith, n, there)

  -- Where the client has no wake-up timer or its timer is in the queue, setting the next wake-up makes a
  -- timer only if there is none yet, and leaves the timer under the client's id, set to go off after the
  -- delay, and every other timer as it was.
  pub set_next_wakeup-get :
      (now : ℕ) (delay : ℤ) (timers : Timers queue) (wakeup : Wakeup) (j : ℕ)
      → IsThere (timers, wakeup)
      → let r = set_next_wakeup now delay (timers, wakeup) in
        (queue.get r.0.q j ≡ (
          if r.1.id == j
          then some
              (trigger_of now (wake_timer wakeup.id delay), stored (wake_timer wakeup.id delay))
          else queue.get timers.q j))
        × ((wakeup.id == 0) ≡ false → r.1.id ≡ wakeup.id)
        × ((r.1.id == 0) ≡ false)
  unfolding set_next_wakeup
  set_next_wakeup-get now delay timers wakeup j there =
      let (gets, names, fresh) =
        ctl_no_lock-get queue timers now (wake_timer wakeup.id delay) j refl in
      (
        ground (arith, gets, names, there),
        λ n. ctl_no_lock-same_id timers now wakeup.id delay n (ground (arith, n, there)),
        ground (arith, names, there),
      )

  -- Setting the callback of the wake-up disables the wake-up that is set, and changes no other timer.
  pub set_on_wakeup-get :
      (now : ℕ) (cb : Option ℕ) (timers : Timers queue) (wakeup : Wakeup) (j : ℕ)
      → IsThere (timers, wakeup)
      → queue.get (set_on_wakeup now cb (timers, wakeup)).0.q j ≡ (
          if (wakeup.id == j) && not (wakeup.id == 0)
          then some (disabled, stored (wake_timer wakeup.id disabled))
          else queue.get timers.q j)
  unfolding set_on_wakeup trigger_of
  set_on_wakeup-get now cb timers wakeup j there = elim (Bool-cases (wakeup.id == 0)) [
    | inl z ↦ ground (arith, z)
    | inr n ↦
        let (gets, names, fresh) =
          ctl_no_lock-get queue timers now (wake_timer wakeup.id disabled) j refl in
        ground (
          arith,
          n,
          gets,
          ctl_no_lock-same_id timers now wakeup.id disabled n (ground (arith, n, there)),
        )
  ]
