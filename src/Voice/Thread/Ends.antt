-- ===== src/Voice/Thread/Ends.antt =====
-- winecord-voice.c: when the thread of a slot ends, and how its next session begins.
use wineberry_discord.Prelude.{
  ℕ, ◌+◌, ◌%◌, ◌<◌, ◌≤◌, ◌≡◌, Bool, true, false, ◌&&◌, List, [], ◌∷◌, ◌++◌, some, length, ltb,
  arith, refl, Bool-cases, inl, inr, ◌∙◌,
}
use wineberry_discord.Prelude.Texts.{Text}
use wineberry_discord.Voice.{
  Voice, CloseOpcode, ready, session_description, speaking, heartbeat_ack, hello, resumed,
  client_disconnect, codec, unknown, Step, on_hello, on_close,
}
use wineberry_discord.Voice.Thread.{
  Happening, text, closed, turn, shuts_down, reconnects, server, state, on_turn, happen, happen_all,
  event_loop, leave, sever, run_thread,
}

-- No session begins and the server does not move.
abbrev pub is_quiet : Happening → Bool
is_quiet (text now ready) = false
is_quiet (text now resumed) = false
is_quiet (text now frame) = true
is_quiet (server token endpoint) = false
is_quiet (state channel_id session_id) = false
is_quiet h = true

abbrev pub all_quiet : List Happening → Bool
all_quiet [] = true
all_quiet (h ∷ hs) = is_quiet h && all_quiet hs

abbrev pub AllQuiet : List (List Happening) → Type 0
AllQuiet [] = Unit
AllQuiet (c ∷ cs) = (all_quiet c ≡ true) × AllQuiet cs

-- The count of attempts, its limit and the redirection are those of before.
abbrev Keeps : Voice → Voice → Type 0
Keeps vc vc' =
    (vc'.attempt ≡ vc.attempt) × (vc'.threshold ≡ vc.threshold) × (vc'.is_redirect ≡ vc.is_redirect)

Keeps-trans : (a b c : Voice) → Keeps a b → Keeps b c → Keeps a c
Keeps-trans a b c (x, y, z) (x', y', z') = (x' ∙ x, y' ∙ y, z' ∙ z)

on_hello-Keeps : (now interval : ℕ) (vc : Voice) → Keeps vc (on_hello now interval vc).0
on_hello-Keeps now interval vc = elim (Bool-cases vc.is_resumable) [
  | inl y ↦ rw y (refl, refl, refl)
  | inr n ↦ rw n (refl, refl, refl)
]

on_close-Keeps : (opcode : CloseOpcode) (vc : Voice) → Keeps vc (on_close opcode vc)
on_close-Keeps opcode vc = elim (Bool-cases vc.shutdown) [
  | inl y ↦ rw y (refl, refl, refl)
  | inr n ↦ rw n (refl, refl, refl)
]

on_turn-Keeps : (now : ℕ) (vc : Voice) → Keeps vc (on_turn now vc).0
on_turn-Keeps now vc = (ground arith, ground arith, ground arith)

module _ (suffix : Text) where
  happen-Keeps :
      (h : Happening) (vc : Voice)
      → is_quiet h ≡ true
      → (s : Step) × (happen suffix h vc ≡ some s) × Keeps vc s.0
  happen-Keeps (text now ready) vc q = absurd (ground (arith, q))
  happen-Keeps (text now resumed) vc q = absurd (ground (arith, q))
  happen-Keeps (text now session_description) vc q = (_, refl, (refl, refl, refl))
  happen-Keeps (text now speaking) vc q = (_, refl, (refl, refl, refl))
  happen-Keeps (text now heartbeat_ack) vc q = (_, refl, (refl, refl, refl))
  happen-Keeps (text now (hello interval)) vc q = (_, refl, on_hello-Keeps now interval vc)
  happen-Keeps (text now client_disconnect) vc q = (_, refl, (refl, refl, refl))
  happen-Keeps (text now codec) vc q = (_, refl, (refl, refl, refl))
  happen-Keeps (text now unknown) vc q = (_, refl, (refl, refl, refl))
  happen-Keeps (closed opcode) vc q = (_, refl, on_close-Keeps opcode vc)
  happen-Keeps (turn now) vc q = (_, refl, on_turn-Keeps now vc)
  happen-Keeps shuts_down vc q = (_, refl, (refl, refl, refl))
  happen-Keeps (reconnects resume_it) vc q = (_, refl, (refl, refl, refl))
  happen-Keeps (server token endpoint) vc q = absurd (ground (arith, q))
  happen-Keeps (state channel_id session_id) vc q = absurd (ground (arith, q))

  happen_all-Keeps :
      (hs : List Happening) (vc : Voice)
      → all_quiet hs ≡ true
      → (s : Step) × (happen_all suffix hs vc ≡ some s) × Keeps vc s.0
  unfolding happen_all
  happen_all-Keeps [] vc q = (_, refl, (refl, refl, refl))
  happen_all-Keeps (h ∷ hs) vc q =
      let ((vc', effects), e, k) = happen-Keeps h vc (ground (arith, q)) in
      let ((vc'', more), e', k') = happen_all-Keeps hs vc' (ground (arith, q)) in
      ((vc'', effects ++ more), ground (arith, e, e'), Keeps-trans vc vc' vc'' k k')

  event_loop-Keeps :
      (hs : List Happening) (vc : Voice)
      → all_quiet hs ≡ true
      → (s : Step) × (event_loop suffix hs vc ≡ some s) × Keeps vc s.0
  unfolding event_loop
  event_loop-Keeps hs vc q =
      let (s, e, k) = happen_all-Keeps hs vc q in (sever suffix s, ground (arith, e), k)

  -- The thread of a slot that is not redirected and has a limit below 256, over at least as many
  -- connections as the limit leaves, none of which brings a ready, a resumed or an update of the server
  -- or of the state, ends and puts the slot back to the pool.
  pub run_thread-ends :
      (cs : List (List Happening)) (vc : Voice)
      → AllQuiet cs
      → vc.is_redirect ≡ false
      → vc.threshold < 256
      → vc.threshold ≤ vc.attempt + length cs
      → (s : Step) × (run_thread suffix cs vc ≡ some (s, true)) × (s.0.guild_id ≡ 0)
  unfolding run_thread
  run_thread-ends [] vc q r t l = ((leave suffix vc, []), ground (arith, l), refl)
  run_thread-ends (c ∷ cs) vc (q, qs) r t l = elim (Bool-cases (ltb vc.attempt vc.threshold)) [
    | inr n ↦ ((leave suffix vc, []), ground (arith, n), refl)
    | inl y ↦
        let ((vc', effects), e, (a, m, d)) = event_loop-Keeps c vc q in
        let straight : vc'.is_redirect ≡ false = d ∙ r in
        elim (Bool-cases vc'.enable) [
          | inr n ↦ ((leave suffix vc', effects ++ []), ground (arith, y, e, straight, n), refl)
          | inl b ↦
              let vc'' = record vc' { attempt = (vc'.attempt + 1) % 256 } in
              let next : vc''.attempt ≡ vc.attempt + 1 = ground (arith, y, a, t) in
              let ((last, more), f, g) =
                run_thread-ends cs vc'' qs straight (ground (arith, m, t))
                  (ground (arith, m, next, l)) in
              ((last, effects ++ ([] ++ more)), ground (arith, y, e, straight, b, f), g)
        ]
  ]
