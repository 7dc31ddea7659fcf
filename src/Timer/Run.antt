-- ===== src/Timer/Run.antt =====
-- winecord-timer.c: `winecord_timers_run`. A callback is called with the lock released: it may use the
-- timers, and change the struct that it is handed.
use wineberry_discord.Prelude.{
  ℕ, zero, suc, ◌+◌, ◌-◌, ◌%◌, ◌==◌, ◌&&◌, ◌||◌, not, Bool, true, false, [], ◌∷◌, ◌++◌, Option,
  none, some, ltb, if◌then◌else◌,
}
use wineberry_discord.Prelude.Int.{ℤ, pos, negsuc}
use wineberry_discord.Timer.{Flags, Timer, PriorityQueue, Timers, calls, disabled, is_negative}
use wineberry_discord.Timer.Control.{has_status, allowed, to_us}

abbrev pub is_zero : ℤ → Bool
is_zero (pos n) = n == 0
is_zero (negsuc n) = false

-- `if (timer.repeat > 0) timer.repeat--`
abbrev pub count_down : ℤ → ℤ
count_down (pos n) = pos (n - 1)
count_down (negsuc n) = negsuc n

abbrev plus : ℕ → ℤ → ℤ
plus a (pos n) = pos (a + n)
plus a (negsuc n) = if ltb n a then pos (a - suc n) else negsuc (n - a)

-- The `next` of the update phase. `delay != -1` lets any other negative delay through.
abbrev is_minus_one : ℤ → Bool
is_minus_one (pos n) = false
is_minus_one (negsuc n) = n == 0

unfoldable pub next_of : ℕ → ℕ → Timer → ℤ
next_of trigger now timer =
    if not (is_minus_one timer.delay)
      && (not (is_negative timer.interval)
          && (not (is_zero timer.repeat) && not timer.flags.canceled))
    then plus (if timer.flags.fixed then trigger else now) (to_us timer.flags.micro timer.interval)
    else disabled

module _ (queue : PriorityQueue) where
  -- What the callbacks do.
  pub record Callbacks : Type 0 where
    pub effect : ℕ → Timers queue → Timer → Timers queue × Timer

  -- How the visit of a timer may come out of its first phase.
  pub data Visit : Type 0 where
    settled : Timers queue → Visit
    restarts : Timers queue → Timer → Visit

  module _ (callbacks : Callbacks) where
    abbrev pub call : Option ℕ → Timers queue → Timer → Timers queue × Timer
    call none timers timer = (timers, timer)
    call (some f) timers timer =
        callbacks.effect f
          (record timers {
            out =
                timers.out
                ++ calls f timer.id timer.flags.tick timer.flags.canceled timer.flags.deleted ∷ [];
          })
          timer

    -- `TIMER_TRY_DELETE`, where the flag is set
    abbrev pub delete : Timers queue → Timer → Timers queue
    delete timers timer =
        let (timers', ret) =
          call timer.on_status_changed (record timers { q = queue.del timers.q timer.id }) timer in
        record timers' { skip_update_phase = false }

    -- The update phase: `prev` are the flags before the callback, and the flag TICK is cleared.
    unfoldable pub update_phase : Timers queue → ℕ → ℕ → Flags → Timer → Timers queue
    update_phase timers trigger now prev timer =
        let f = timer.flags in
        let deleted = f.deleted || ((f.canceled || is_zero timer.repeat) && f.delete_auto) in
        let canceled = f.canceled && not (deleted && prev.canceled) in
        let timer' = record timer { flags = record f { deleted = deleted; canceled = canceled } } in
        if deleted then delete timers timer' else record timers {
          q =
              queue.update timers.q timer.id (next_of trigger now timer')
                (record timer' { flags = allowed timer'.flags });
        }

    abbrev pub after_call : ℕ → ℕ → Flags → Timers queue × Timer → Visit
    after_call trigger now prev (timers, ret) =
        let timer = record ret { flags = record ret.flags { tick = false } } in
        if timers.skip_update_phase
        then settled (record timers { skip_update_phase = false })
        else (if not prev.canceled && timer.flags.canceled
            then restarts timers timer
            else settled (update_phase timers trigger now prev timer))

    -- From the label `restart` to the end of the round, by whether a flag of the status is set, and
    -- whether the flag DELETE is.
    abbrev pub visit_by : Bool → Bool → Timers queue → ℕ → ℕ → Timer → Visit
    visit_by true true timers trigger now timer = settled (delete timers timer)
    visit_by true false timers trigger now timer =
        after_call trigger now timer.flags (call timer.on_status_changed timers timer)
    visit_by false deleted timers trigger now timer =
        let timer' = record timer {
          repeat = count_down timer.repeat;
          flags = record timer.flags { tick = true };
        } in
        after_call trigger now timer'.flags (call timer.on_tick timers timer')

    unfoldable pub visit_once : Timers queue → ℕ → ℕ → Timer → Visit
    unfolding update_phase
    visit_once timers trigger now timer =
        visit_by (has_status timer.flags) timer.flags.deleted timers trigger now timer

    -- The `goto restart` as recursion on fuel.
    unfoldable pub visit : ℕ → Timers queue → ℕ → ℕ → Timer → Option (Timers queue)
    visit zero timers trigger now timer = none
    visit (suc fuel) timers trigger now timer = elim (visit_once timers trigger now timer) [
      | settled timers' ↦ some timers'
      | restarts timers' timer' ↦ visit fuel timers' trigger now timer'
    ]

    abbrev value_or : Option (Timers queue) → Timers queue → Timers queue
    value_or none timers = timers
    value_or (some timers') timers = timers'

    -- The loop, `left` rounds before `max_iterations` is 0. `clock` is the time that is read when
    -- `left` rounds are left. A disabled timer has the trigger -1, and no other that is negative.
    unfoldable pub rounds : ℕ → (ℕ → ℕ) → ℕ → ℕ → Timers queue → Timers queue
    rounds zero clock start now timers = timers
    rounds (suc left) clock start now timers =
        let reads = (suc left % 32) == 0 in
        let now' = if reads then clock (suc left) else now in
        elim (queue.peek timers.q) [
          | none ↦ timers
          | some (i, negsuc t, timer) ↦ timers
          | some (i, pos t, timer) ↦
              let timers' = record timers { active = some i } in
              let go_on =
                rounds left clock start now'
                  (value_or (visit 2 timers' t now' (record timer { id = i })) timers') in
              if (reads && ltb 10000 (now' - start)) || ltb now' t then timers else go_on
        ]

    -- `winecord_timers_run`
    unfoldable pub timers_run : (ℕ → ℕ) → ℕ → Timers queue → Timers queue
    unfolding rounds
    timers_run clock start timers =
        let timers' =
          rounds 100000 clock start start (record timers { skip_update_phase = false }) in
        record timers' { active = none }
