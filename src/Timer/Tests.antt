-- ===== src/Timer/Tests.antt =====
-- Runs of timers, and the theorems about them at these.
use wineberry_discord.Prelude.{◌≡◌, ◌==◌, refl, true, false, [], ◌∷◌, Option, none, some}
use wineberry_discord.Prelude.Int.{ℤ, pos}
use wineberry_discord.Timer.{Timer, Timers, no_flags, calls, disabled}
use wineberry_discord.Timer.Trigger.{get_next_trigger, IsSoonest, get_next_trigger-IsSoonest}
use wineberry_discord.Timer.Control.{timer_interval, ctl_no_lock, trigger_of}
use wineberry_discord.Timer.Due.{ctl_no_lock-due}
use wineberry_discord.Timer.Run.{Callbacks, visit, rounds, visit_once, next_of}
use wineberry_discord.Timer.Fate.{quiet, visit-quiet}
use wineberry_discord.Timer.Slots.{slots_queue, update, delete}

abbrev empty : Timers slots_queue
empty = record { q = []; active = none; skip_update_phase = false; out = [] }

-- A timer that ticks three times, every 5 ms, and one that waits to be started.
abbrev ticking : Timers slots_queue
ticking = (timer_interval slots_queue empty 1000 (some 7) (some 8) 0 (pos 2) (pos 5) (pos 3)).0

abbrev two : Timers slots_queue
two = (timer_interval slots_queue ticking 1000 (some 9) none 0 disabled (pos 1) (pos 1)).0

two_trigger : get_next_trigger slots_queue (some two.q ∷ []) 1500 60000 ≡ 1500
unfolding get_next_trigger timer_interval trigger_of
two_trigger = refl

get_next_trigger-IsSoonest_example :
    IsSoonest slots_queue
      (some two.q ∷ none ∷ [])
      1500
      60000
      (get_next_trigger slots_queue (some two.q ∷ none ∷ []) 1500 60000)
get_next_trigger-IsSoonest_example =
    get_next_trigger-IsSoonest slots_queue (some two.q ∷ none ∷ []) 1500 60000

abbrev moved : Timer
moved = record {
  id = 1;
  on_tick = some 7;
  on_status_changed = some 8;
  payload = 0;
  delay = pos 40;
  interval = pos 5;
  repeat = pos 3;
  flags = no_flags;
}

ctl_no_lock-due_example :
    let c = ctl_no_lock slots_queue two 2000 moved in
    (slots_queue.get c.0.q 1 ≡ some (pos 42000, moved))
    × ((c.1 == 0) ≡ false)
    × ((c.1 == 1) ≡ true)
    × (◌≡◌ {A = Option (ℤ × Timer)} none none)
    × (c.0.skip_update_phase ≡ false)
    × (c.0.active ≡ none)
    × (c.0.out ≡ [])
unfolding ctl_no_lock timer_interval trigger_of
ctl_no_lock-due_example = ctl_no_lock-due slots_queue two 2000 moved 1 refl

abbrev first : Timer
first = record moved { delay = pos 2; flags = record no_flags { delete_auto = true } }

visit-quiet_example :
    (timers' : Timers slots_queue) × (visit slots_queue (quiet slots_queue) 2 two 3000 3100 first
      ≡ some timers')
    × (timers'.out ≡ calls 7 1 true false false ∷ [])
    × (slots_queue.get timers'.q 1 ≡ some (pos 8100, record first { repeat = pos 2 }))
    × (timers'.skip_update_phase ≡ false)
unfolding timer_interval next_of
visit-quiet_example = visit-quiet slots_queue two 3000 3100 1 first refl refl

-- A callback that cancels its own timer through the struct that it is handed.
abbrev cancels : Callbacks slots_queue
cancels = record {
  effect =
      λ f timers timer. (timers, record timer { flags = record timer.flags { canceled = true } });
}

-- A run at one time ticks once, whatever is left of its rounds.
run_once :
    (rounds slots_queue (quiet slots_queue) 9 (λ left. 3000) 3000 3000 two).out
    ≡ calls 7 1 true false false ∷ []
unfolding rounds visit visit_once timer_interval trigger_of next_of update delete
run_once = refl
