-- ===== src/Timer.antt =====
-- source/wineberry/discord/winecord-timer.c: callbacks that run at a time. The queue is that of
-- priority-queue.h, which is not part of the repository: an interface with what the timers rely on.
-- A trigger is a time in microseconds, and -1 where the timer is disabled. The flags are Booleans; a
-- callback is a number, and what it does to the timers and to the struct that it is handed is a
-- parameter. Locks are left out: a call from another thread waits until a run has ended.
pub mod Trigger
pub mod Control
pub mod Due
pub mod Start
pub mod Run
pub mod Fate
pub mod Slots
mod Tests
use wineberry_discord.Prelude.{
  ℕ, ◌≡◌, ◌≢◌, ◌==◌, ◌<◌, Bool, true, false, List, Option, none, some, ltb, if◌then◌else◌, ◌&&◌,
}
use wineberry_discord.Prelude.Int.{ℤ, pos, negsuc}
use wineberry_discord.Chash.{is_some}

-- WINEBERRY_TIMER_MICROSECONDS, DELETE, DELETE_AUTO, INTERVAL_FIXED, CANCELED, TICK and GET.
pub record Flags : Type 0 where
  pub micro : Bool
  pub deleted : Bool
  pub delete_auto : Bool
  pub fixed : Bool
  pub canceled : Bool
  pub tick : Bool
  pub get : Bool

abbrev pub no_flags : Flags
no_flags = record {
  micro = false;
  deleted = false;
  delete_auto = false;
  fixed = false;
  canceled = false;
  tick = false;
  get = false;
}

-- `struct winecord_timer`
pub record Timer : Type 0 where
  pub id : ℕ
  pub on_tick : Option ℕ
  pub on_status_changed : Option ℕ
  pub payload : ℕ
  pub delay : ℤ
  pub interval : ℤ
  pub repeat : ℤ
  pub flags : Flags

abbrev pub disabled : ℤ
disabled = negsuc 0

abbrev pub is_negative : ℤ → Bool
is_negative (pos n) = false
is_negative (negsuc n) = true

-- `cmp_timers` as an order: disabled timers come last.
abbrev pub is_before : ℤ → ℤ → Bool
is_before (pos a) (pos b) = ltb a b
is_before (pos a) (negsuc b) = true
is_before (negsuc a) b = false

pub record PriorityQueue : Type 1 where
  pub Carrier : Type 0
  -- What stands under an id; ids begin at 1.
  pub get : Carrier → ℕ → Option (ℤ × Timer)
  pub peek : Carrier → Option (ℕ × ℤ × Timer)
  pub push : Carrier → ℤ → Timer → Carrier × ℕ
  pub update : Carrier → ℕ → ℤ → Timer → Carrier
  pub del : Carrier → ℕ → Carrier
  pub get-zero : (q : Carrier) → get q 0 ≡ none
  pub peek_gets :
      (q : Carrier) {i : ℕ} {t : ℤ} {timer : Timer}
      → peek q ≡ some (i, t, timer)
      → get q i ≡ some (t, timer)
  pub peek_first :
      (q : Carrier) {i : ℕ} {t : ℤ} {timer : Timer} (j : ℕ) {u : ℤ} {other : Timer}
      → peek q ≡ some (i, t, timer)
      → get q j ≡ some (u, other)
      → is_before u t ≡ false
  pub peek_none : (q : Carrier) (j : ℕ) → peek q ≡ none → get q j ≡ none
  pub push_fresh : (q : Carrier) (t : ℤ) (timer : Timer) → get q (push q t timer).1 ≡ none
  pub push_pos : (q : Carrier) (t : ℤ) (timer : Timer) → 0 < (push q t timer).1
  pub get-push :
      (q : Carrier) (t : ℤ) (timer : Timer) (j : ℕ)
      → get (push q t timer).0 j ≡ (if (push q t timer).1 == j then some (t, timer) else get q j)
  pub get-update :
      (q : Carrier) (i : ℕ) (t : ℤ) (timer : Timer) (j : ℕ)
      → get (update q i t timer) j
        ≡ (if (i == j) && is_some (get q i) then some (t, timer) else get q j)
  pub get-del : (q : Carrier) (i j : ℕ) → get (del q i) j ≡ (if i == j then none else get q j)

-- What the program does to the outside: a call of a callback, for the timer with an id, with its
-- flags TICK, CANCELED and DELETE.
pub data Call : Type 0 where
  calls : ℕ → ℕ → Bool → Bool → Bool → Call

module _ (queue : PriorityQueue) where
  -- `struct winecord_timers`; `active` is the id of the timer that is running.
  pub record Timers : Type 0 where
    pub q : queue.Carrier
    pub active : Option ℕ
    pub skip_update_phase : Bool
    pub out : List Call
