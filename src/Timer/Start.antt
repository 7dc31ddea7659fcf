-- ===== src/Timer/Start.antt =====
-- winecord-timer.c: what `winecord_timer_start` does to a timer that was just made.
use wineberry_discord.Prelude.{ℕ, ◌≡◌, ◌==◌, true, false, Option, none, some, if◌then◌else◌, arith}
use wineberry_discord.Prelude.Int.{ℤ, pos}
use wineberry_discord.Chash.{is_some}
use wineberry_discord.Timer.{no_flags, Timer, PriorityQueue, Timers, is_negative}
use wineberry_discord.Timer.Control.{trigger_of, stored, timer_interval, timer_start}

module _ (queue : PriorityQueue) where
  -- What a start of a timer that no run and no control call has updated since it was made leaves: the
  -- timer as it was, and a second one under a new id, which is the one that is started.
  pub record IsDoubled (q q' : queue.Carrier) (i : ℕ) : Type 0 where
    pub second : ℕ
    pub other : (second == i) ≡ false
    pub kept : queue.get q' i ≡ queue.get q i
    pub new : queue.get q second ≡ none
    pub started : is_some (queue.get q' second) ≡ true

  -- A start of a timer that was just made, and that no run and no control call has updated, leaves
  -- that timer as it was, and makes a second one under a new id.
  pub timer_start-timer_interval :
      (timers : Timers queue) (now later : ℕ) (on_tick on_status : Option ℕ) (payload : ℕ)
      (delay interval repeat : ℤ)
      → let (made, i) =
          timer_interval queue timers now on_tick on_status payload delay interval repeat in
        ((timer_start queue made later i).1 ≡ true)
        × IsDoubled made.q (timer_start queue made later i).0.q i
  unfolding timer_interval timer_start
  timer_start-timer_interval timers now later on_tick on_status payload delay interval repeat =
      let timer : Timer = record {
        id = 0;
        on_tick = on_tick;
        on_status_changed = on_status;
        payload = payload;
        delay = delay;
        interval = interval;
        repeat = repeat;
        flags = record no_flags { delete_auto = true };
      } in
      let t = trigger_of now timer in
      let q = (queue.push timers.q t (stored timer)).0 in
      let i = (queue.push timers.q t (stored timer)).1 in
      let again : Timer = record (stored timer) {
        delay = if is_negative delay then pos 0 else delay;
      } in
      let u = trigger_of later again in
      let p = queue.push q u (stored again) in
      let e : queue.get q i ≡ some (t, stored timer) =
        ground (arith, queue.get-push timers.q t (stored timer) i) in
      let new = queue.push_fresh q u (stored again) in
      let other : (p.1 == i) ≡ false = ground (arith, e, new) in
      (
        ground (arith, e, queue.push_pos q u (stored again)),
        record {
          second = p.1;
          other = other;
          kept = ground (arith, e, other, queue.get-push q u (stored again) i);
          new = new;
          started = ground (arith, e, queue.get-push q u (stored again) p.1);
        },
      )
