-- ===== src/Loop/Ends.antt =====
-- winecord-loop.c: how `winecord_run` ends.
use wineberry_discord.Prelude.{
  ℕ, zero, suc, ◌+◌, ◌≡◌, ◌++◌, ◌∙◌, ap, Bool, Bool-cases, inl, inr, if◌then◌else◌, sym, fun_ext,
  subst, true, false, List, arith, refl, append_assoc,
}
use wineberry_discord.Gateway.{Session, Gateway}
use wineberry_discord.Gateway.Connect.{end}
use wineberry_discord.Timer.{PriorityQueue}
use wineberry_discord.Loop.{
  RunCode, run_ok, failed, Action, Client, World, turn, Phase, starting, looping, Next, goes_on,
  returns, end_connection, after_start, after_perform, advance, continue, run_loop,
}

-- The session as `winecord_gateway_end` leaves it when it will not be started again.
pub record IsOffline (s : Session) : Type 0 where
  pub not_resumable : s.resumable ≡ false
  pub not_shutdown : s.shutdown ≡ false
  pub not_ready : s.is_ready ≡ false
  pub no_attempt : s.retry_attempt ≡ 0

end-IsOffline :
    (gw : Gateway)
    → gw.session.retry_enable ≡ false
    → ((end gw).1 ≡ true) × IsOffline (end gw).0.session
unfolding end
end-IsOffline gw h = elim (Bool-cases gw.session.retry_enable) [
  | inl e ↦ absurd (ground (arith, e, h))
  | inr e ↦ (
    ground (arith, e),
    record {
      not_resumable = ground (arith, e);
      not_shutdown = ground (arith, e);
      not_ready = ground (arith, e);
      no_attempt = ground (arith, e);
    },
  )
]

when_true {ℓ} : {A : Type ℓ} (b : Bool) (x y : A) → b ≡ true → (if b then x else y) ≡ x
when_true true x y h = refl
when_true false x y h = cc

module _ (queue : PriorityQueue) (w : World queue) where
  abbrev pub Passed : Type 0
  Passed = List (Action queue) × Next queue w

  continue_assoc :
      (first second : Phase queue w → Client queue → Passed) (r : Passed)
      → continue queue w (λ phase c. continue queue w second (first phase c)) r
        ≡ continue queue w second (continue queue w first r)
  continue_assoc first second (steps, returns code c) = refl
  continue_assoc first second (steps, goes_on phase c) = go steps (first phase c)
    where
      go :
          (steps : List (Action queue)) (r : Passed)
          → (let (steps', next) = continue queue w second r in (steps ++ steps', next))
            ≡ continue queue w second (steps ++ r.0, r.1)
      go steps (steps', returns code c) = refl
      go steps (steps', goes_on phase c) =
          ap (λ s. (s, (second phase c).1)) (sym (append_assoc steps steps' (second phase c).0))

  run_loop_add :
      (n m : ℕ) (phase : Phase queue w) (c : Client queue)
      → run_loop queue w (n + m) phase c
        ≡ continue queue w (run_loop queue w m) (run_loop queue w n phase c)
  unfolding run_loop
  run_loop_add zero m phase c =
      let e : 0 + m ≡ m = omega arith in ap (λ k. run_loop queue w k phase c) e
  run_loop_add (suc n) m phase c =
      let e : suc n + m ≡ suc (n + m) = omega arith in
      ap (λ k. run_loop queue w k phase c) e
      ∙ ap (λ rest. continue queue w rest (advance queue w phase c))
          (fun_ext (λ phase'. fun_ext (λ c'. run_loop_add n m phase' c')))
      ∙ continue_assoc (run_loop queue w n) (run_loop queue w m) (advance queue w phase c)

  -- The value of `code` in a connection is that of a call that went well.
  abbrev IsWell : Next queue w → Type 0
  IsWell (returns code c) = Unit
  IsWell (goes_on starting c) = Unit
  IsWell (goes_on (looping code) c) = code ≡ run_ok

  if-IsWell :
      (b : Bool) (next next' : Next queue w)
      → IsWell next
      → IsWell next'
      → IsWell (if b then next else next')
  if-IsWell true next next' h h' = h
  if-IsWell false next next' h h' = h'

  end_connection-IsWell :
      (code : RunCode) (c : Client queue) → IsWell (end_connection queue w code c)
  end_connection-IsWell code c = if-IsWell (end c.gw).1 _ _ tt tt

  after_start-IsWell : (r : RunCode × Client queue) → IsWell (after_start queue w r)
  after_start-IsWell (run_ok, c) = refl
  after_start-IsWell (failed code, c) = tt

  after_perform-IsWell :
      (steps : List (Action queue)) (r : RunCode × Client queue)
      → IsWell (after_perform queue w steps r).1
  after_perform-IsWell steps (run_ok, c) = refl
  after_perform-IsWell steps (failed code, c) = end_connection-IsWell (failed code) c

  test_shutdown_by :
      (b : Bool) (r r' : Passed) → IsWell r.1 → IsWell r'.1 → IsWell (if b then r else r').1
  test_shutdown_by true r r' h h' = h
  test_shutdown_by false r r' h h' = h'

  advance-IsWell : (phase : Phase queue w) (c : Client queue) → IsWell (advance queue w phase c).1
  unfolding advance
  advance-IsWell starting c = after_start-IsWell (w.gateway_start c)
  advance-IsWell (looping code) c =
      let (steps, c') = turn queue w c in
      test_shutdown_by c'.gw.session.shutdown (steps, end_connection queue w code c') _
        (end_connection-IsWell code c') (after_perform-IsWell steps (w.poller_perform c'))

  continue-IsWell :
      (rest : Phase queue w → Client queue → Passed) (r : Passed)
      → ((phase : Phase queue w) (c : Client queue)
          → IsWell (goes_on phase c)
          → IsWell (rest phase c).1)
      → IsWell r.1
      → IsWell (continue queue w rest r).1
  continue-IsWell rest (steps, returns code c) h h' = tt
  continue-IsWell rest (steps, goes_on phase c) h h' = h phase c h'

  run_loop-IsWell :
      (n : ℕ) (phase : Phase queue w) (c : Client queue)
      → IsWell (goes_on phase c)
      → IsWell (run_loop queue w n phase c).1
  unfolding run_loop
  run_loop-IsWell zero phase c h = h
  run_loop-IsWell (suc n) phase c h =
      continue-IsWell (run_loop queue w n) (advance queue w phase c) (run_loop-IsWell n)
        (advance-IsWell phase c)

  -- The client that a shutdown leaves.
  abbrev pub ended : Client queue → Client queue
  ended c = record c { gw = (end c.gw).0 }

  advance-shutdown :
      (code : RunCode) (c : Client queue)
      → (turn queue w c).1.gw.session.shutdown ≡ true
      → (turn queue w c).1.gw.session.retry_enable ≡ false
      → advance queue w (looping code) c
        ≡ ((turn queue w c).0, returns code (ended (turn queue w c).1))
  unfolding advance
  advance-shutdown code c h h' =
      let (steps, c') = turn queue w c in
      when_true c'.gw.session.shutdown (steps, end_connection queue w code c') _ h
      ∙ ap (λ next. (steps, next))
          (when_true (end c'.gw).1 (returns code (ended c')) _ (end-IsOffline c'.gw h').0)

  -- However many attempts and rounds `winecord_run` has behind it, whatever was done in them: when,
  -- before the test in a round of a connection, the session has the status SHUTDOWN and is not to be
  -- started again, as `winecord_shutdown` leaves it, it returns WINEBERRY_OK at that test, with no
  -- call after those of that part of the round, neither of the poller nor of the request queue; and
  -- the session is offline.
  pub run_loop-shutdown :
      (n m : ℕ) (code : RunCode) (c0 c : Client queue) (steps : List (Action queue))
      → run_loop queue w n starting c0 ≡ (steps, goes_on (looping code) c)
      → (turn queue w c).1.gw.session.shutdown ≡ true
      → (turn queue w c).1.gw.session.retry_enable ≡ false
      → (run_loop queue w (n + suc m) starting c0
          ≡ (steps ++ (turn queue w c).0, returns run_ok (ended (turn queue w c).1)))
        × IsOffline (ended (turn queue w c).1).gw.session
  unfolding run_loop
  run_loop-shutdown n m code c0 c steps e h h' =
      let well : IsWell (goes_on (looping code) c) =
        subst (λ (r : Passed). IsWell r.1) e (run_loop-IsWell n starting c0 tt) in
      let passed = advance-shutdown code c h h' in
      (
        run_loop_add n (suc m) starting c0
            ∙ ap (continue queue w (run_loop queue w (suc m))) e
            ∙ ap (λ r. (steps ++ r.0, r.1))
                (ap (continue queue w (run_loop queue w m)) passed
                  ∙ ap (λ x. ((turn queue w c).0, returns x (ended (turn queue w c).1))) well),
        (end-IsOffline (turn queue w c).1.gw h').1,
      )
