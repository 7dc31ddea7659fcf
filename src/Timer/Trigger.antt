-- ===== src/Timer/Trigger.antt =====
-- winecord-timer.c: `winecord_timers_get_next_trigger`, how long the loops may sleep.
use wineberry_discord.Prelude.{
  ℕ, zero, suc, ◌-◌, ◌≡◌, ◌≤◌, ◌==◌, ◌⊎◌, inl, inr, List, [], ◌∷◌, Option, none, some, ltb, leb,
  if◌then◌else◌, arith, get_elem?, refl, Bool-cases,
}
use wineberry_discord.Prelude.Int.{ℤ, pos, negsuc}
use wineberry_discord.Timer.{Timer, PriorityQueue}

-- One round of the loop, on the head of the queue. `now` and `max_time` are not negative, since the
-- callers pass a timestamp and a constant.
abbrev pub shorten : Option (ℕ × ℤ × Timer) → ℕ → ℕ → ℕ
shorten none now max_time = max_time
shorten (some (i, negsuc t, timer)) now max_time = max_time
shorten (some (i, pos t, timer)) now max_time =
    if leb t now then 0 else (if ltb (t - now) max_time then t - now else max_time)

module _ (queue : PriorityQueue) where
  -- A group whose lock is taken is `none`.
  abbrev pub Groups : Type 0
  Groups = List (Option queue.Carrier)

  unfoldable pub next_trigger_from : Groups → ℕ → ℕ → ℕ
  next_trigger_from [] now max_time = max_time
  next_trigger_from (none ∷ groups) now max_time = 0
  next_trigger_from (some q ∷ groups) now max_time =
      next_trigger_from groups now (shorten (queue.peek q) now max_time)

  -- `winecord_timers_get_next_trigger`
  unfoldable pub get_next_trigger : Groups → ℕ → ℕ → ℕ
  unfolding next_trigger_from
  get_next_trigger groups now max_time =
      if max_time == 0 then 0 else next_trigger_from groups now max_time

  shorten-le-max :
      (head : Option (ℕ × ℤ × Timer)) (now max_time : ℕ) → shorten head now max_time ≤ max_time
  shorten-le-max none now max_time = omega arith
  shorten-le-max (some (i, pos t, timer)) now max_time = ground arith
  shorten-le-max (some (i, negsuc t, timer)) now max_time = omega arith

  shorten-le :
      (q : queue.Carrier) (head : Option (ℕ × ℤ × Timer)) (now max_time j : ℕ) {t : ℕ}
      {timer : Timer}
      → queue.peek q ≡ head
      → queue.get q j ≡ some (pos t, timer)
      → shorten head now max_time ≤ t - now
  shorten-le q none now max_time j e g = absurd (ground (arith, g, queue.peek_none q j e))
  shorten-le q (some (i, pos u, timer)) now max_time j e g =
      ground (arith, queue.peek_first q j e g)
  shorten-le q (some (i, negsuc u, timer)) now max_time j e g =
      absurd (ground (arith, queue.peek_first q j e g))

  -- What a group says of the result: its lock was taken, or its first timer is the reason.
  abbrev pub Decides : Option queue.Carrier → ℕ → ℕ → Type 0
  Decides none now r = r ≡ 0
  Decides (some q) now r =
      (i : ℕ) × (t : ℕ) × (timer : Timer) × (queue.peek q ≡ some (i, pos t, timer)) × (r ≡ t - now)

  abbrev pub AnyDecides : Groups → ℕ → ℕ → Type 0
  AnyDecides [] now r = ⊥
  AnyDecides (group ∷ groups) now r = Decides group now r ⊎ AnyDecides groups now r

  next_trigger_from-le-max :
      (groups : Groups) (now max_time : ℕ) → next_trigger_from groups now max_time ≤ max_time
  unfolding next_trigger_from
  next_trigger_from-le-max [] now max_time = omega arith
  next_trigger_from-le-max (none ∷ groups) now max_time = omega arith
  next_trigger_from-le-max (some q ∷ groups) now max_time = omega (
    arith,
    next_trigger_from-le-max groups now (shorten (queue.peek q) now max_time),
    shorten-le-max (queue.peek q) now max_time,
  )

  next_trigger_from-le :
      (groups : Groups) (now max_time n j : ℕ) {q : queue.Carrier} {t : ℕ} {timer : Timer}
      → get_elem? groups n ≡ some (some q)
      → queue.get q j ≡ some (pos t, timer)
      → next_trigger_from groups now max_time ≤ t - now
  unfolding next_trigger_from
  next_trigger_from-le [] now max_time n j e g = cc
  next_trigger_from-le (none ∷ groups) now max_time n j e g = omega arith
  next_trigger_from-le (some q ∷ groups) now max_time zero j {q = p} {t = t} {timer = timer} e g =
      let same_queue : q ≡ p = ground (arith, e) in
      omega (
        arith,
        next_trigger_from-le-max groups now (shorten (queue.peek q) now max_time),
        shorten-le q (queue.peek q) now max_time j {t = t} {timer = timer} refl (rw same_queue g),
      )
  next_trigger_from-le (some q ∷ groups) now max_time (suc n) j e g =
      next_trigger_from-le groups now (shorten (queue.peek q) now max_time) n j e g

  attained_or_later :
      (q : queue.Carrier) (head : Option (ℕ × ℤ × Timer)) (groups : Groups) (now max_time : ℕ)
      {r : ℕ}
      → queue.peek q ≡ head
      → (r ≡ shorten head now max_time) ⊎ AnyDecides groups now r
      → (r ≡ max_time) ⊎ AnyDecides (some q ∷ groups) now r
  attained_or_later q head groups now max_time e (inr later) = inr (inr later)
  attained_or_later q none groups now max_time e (inl h) = inl h
  attained_or_later q (some (i, negsuc t, timer)) groups now max_time e (inl h) = inl h
  attained_or_later q (some (i, pos t, timer)) groups now max_time e (inl h) =
      elim (Bool-cases (leb t now)) [
        | inl due ↦ inr (inl (i, t, timer, e, ground (arith, h, due)))
        | inr early ↦ elim (Bool-cases (ltb (t - now) max_time)) [
          | inl sooner ↦ inr (inl (i, t, timer, e, ground (arith, h, early, sooner)))
          | inr later ↦ inl (ground (arith, h, early, later))
        ]
      ]

  next_trigger_from_attained :
      (groups : Groups) (now max_time : ℕ)
      → (next_trigger_from groups now max_time ≡ max_time)
        ⊎ AnyDecides groups now (next_trigger_from groups now max_time)
  unfolding next_trigger_from
  next_trigger_from_attained [] now max_time = inl refl
  next_trigger_from_attained (none ∷ groups) now max_time = inr (inl refl)
  next_trigger_from_attained (some q ∷ groups) now max_time =
      attained_or_later q (queue.peek q) groups now max_time refl
        (next_trigger_from_attained groups now (shorten (queue.peek q) now max_time))

  -- Whether a sleep of `r` is as long as the timers of `groups` allow.
  pub record IsSoonest (groups : Groups) (now max_time r : ℕ) : Type 0 where
    pub within : r ≤ max_time
    pub in_time :
        (n j : ℕ) (q : queue.Carrier) (t : ℕ) (timer : Timer)
        → get_elem? groups n ≡ some (some q)
        → queue.get q j ≡ some (pos t, timer)
        → r ≤ t - now
    pub attained : (r ≡ max_time) ⊎ AnyDecides groups now r

  -- The next trigger of some groups of timers: not above the bound, not after any enabled timer of a
  -- group, and either the bound itself, or the time that is left to the first timer of a group, or 0
  -- because the lock of a group was taken.
  pub get_next_trigger-IsSoonest :
      (groups : Groups) (now max_time : ℕ)
      → IsSoonest groups now max_time (get_next_trigger groups now max_time)
  unfolding get_next_trigger
  get_next_trigger-IsSoonest groups now max_time = elim (Bool-cases (max_time == 0)) [
    | inl z ↦ rw z (record {
      within = omega arith;
      in_time = λ n j q t timer e g. omega arith;
      attained = inl (ground (arith, z));
    })
    | inr p ↦ rw p (record {
      within = next_trigger_from-le-max groups now max_time;
      in_time = λ n j q t timer e g. next_trigger_from-le groups now max_time n j e g;
      attained = next_trigger_from_attained groups now max_time;
    })
  ]
