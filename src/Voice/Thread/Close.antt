-- ===== src/Voice/Thread/Close.antt =====
-- winecord-voice.c: what follows the close of a voice session.
use wineberry_discord.Prelude.{
  length, ◌+◌, ◌&&◌, ◌⊎◌, inl, inr, ltb, not, Bool-cases, ◌++◌, ◌<◌, ℕ, ◌≡◌, Bool, true, false, [],
  ◌∷◌, some, if◌then◌else◌, arith, refl,
}
use wineberry_discord.Prelude.Texts.{Text, codes}
use wineberry_discord.Voice.{
  Voice, CloseOpcode, server_crash, unknown_opcode, decode_error, not_authenticated,
  authentication_failed, already_authenticated, server_not_found, unknown_protocol,
  unknown_encryption_mode, disconnected, session_timed_out, invalid_session, normal, other_close,
  Effect, ws_start, ws_end, set_url, close_normal, identify, resume, Step, on_hello, on_close,
  close_flags,
}
use wineberry_discord.Voice.Thread.{
  server, closed, happen_all, event_loop, sever, after_loop, leave, run_thread,
}

-- The codes after which the thread connects again.
abbrev pub reconnects_after : CloseOpcode → Bool
reconnects_after server_crash = true
reconnects_after normal = true
reconnects_after disconnected = true
reconnects_after session_timed_out = true
reconnects_after invalid_session = true
reconnects_after opcode = false

-- The codes after which the session is resumed.
abbrev pub resumes_after : CloseOpcode → Bool
resumes_after server_crash = true
resumes_after normal = true
resumes_after opcode = false

flags_after :
    (opcode : CloseOpcode) → close_flags opcode ≡ (resumes_after opcode, reconnects_after opcode)
flags_after server_crash = refl
flags_after unknown_opcode = refl
flags_after decode_error = refl
flags_after not_authenticated = refl
flags_after authentication_failed = refl
flags_after already_authenticated = refl
flags_after server_not_found = refl
flags_after unknown_protocol = refl
flags_after unknown_encryption_mode = refl
flags_after disconnected = refl
flags_after session_timed_out = refl
flags_after invalid_session = refl
flags_after normal = refl
flags_after other_close = refl

-- The first frame of a session.
abbrev pub first_frame : Bool → Voice → Effect
first_frame resumes vc =
    if resumes
    then resume vc.guild_id vc.session_id vc.token
    else identify vc.guild_id vc.session_id vc.token

module _ (suffix : Text) where
  -- The thread of a slot with attempts left and a limit below 256, over a connection that is closed
  -- while it is neither shut down nor redirected: it goes on to another connection exactly if the code
  -- is that of a crash, a normal close, a disconnection, a session that timed out or an invalid session,
  -- and an attempt is left after this one; then the next hello resumes the session after the first two
  -- and identifies after the others.
  pub run_thread-closed :
      (opcode : CloseOpcode) (vc : Voice) (now interval : ℕ)
      → vc.shutdown ≡ false
      → vc.is_redirect ≡ false
      → vc.attempt < vc.threshold
      → vc.threshold < 256
      → let goes_on = reconnects_after opcode && ltb (vc.attempt + 1) vc.threshold in
        (s : Step) × (run_thread suffix ((closed opcode ∷ []) ∷ []) vc ≡ some (s, not goes_on))
        × ((goes_on ≡ false)
            ⊎ ((on_hello now interval s.0).1 ≡ first_frame (resumes_after opcode) vc ∷ []))
  unfolding run_thread event_loop happen_all
  run_thread-closed opcode vc now interval h r more limit =
      let flags = flags_after opcode in
      let sent = ws_start ∷ ws_end ∷ [] in
      let closed_vc = (sever suffix (on_close opcode vc, [])).0 in
      let ((next_vc, set), on) = after_loop suffix closed_vc in
      elim (Bool-cases (reconnects_after opcode)) [
        | inl y ↦ elim (Bool-cases (ltb (vc.attempt + 1) vc.threshold)) [
          | inl a ↦ (
            (next_vc, sent),
            ground (arith, h, r, more, limit, flags, y, a),
            inr (ground (arith, h, r, flags, y)),
          )
          | inr n ↦ (
            (leave suffix next_vc, sent),
            ground (arith, h, r, more, limit, flags, y, n),
            inl (ground (arith, y, n)),
          )
        ]
        | inr n ↦ (
          (leave suffix next_vc, sent),
          ground (arith, h, r, more, flags, n),
          inl (ground (arith, n)),
        )
      ]

  -- A move to another server of a live connection, whatever code closes the connection: the thread
  -- connects to the new server with no attempt counted, and the next hello identifies with the new
  -- token. The token and the URL fit their buffers.
  pub event_loop-server :
      (token endpoint : Text) (opcode : CloseOpcode) (vc : Voice) (now interval : ℕ)
      → length token < 128
      → length (codes "wss://" ++ (endpoint ++ suffix)) < 512
      → (s : Step) × (event_loop suffix (server token endpoint ∷ closed opcode ∷ []) vc ≡ some s)
        × ((after_loop suffix s.0).1 ≡ true)
        × ((after_loop suffix s.0).0.0.attempt ≡ 0)
        × ((after_loop suffix s.0).0.1 ≡ set_url (codes "wss://" ++ (endpoint ++ suffix)) ∷ [])
        × ((on_hello now interval (after_loop suffix s.0).0.0).1
            ≡ identify vc.guild_id vc.session_id token ∷ [])
  unfolding event_loop happen_all
  event_loop-server token endpoint opcode vc now interval t u =
      let url = codes "wss://" ++ (endpoint ++ suffix) in
      let moved = record vc { new_token = token; new_url = url; is_redirect = true } in
      let kept : (on_close opcode moved).is_redirect ≡ true = ground arith in
      (
        sever suffix (on_close opcode moved, close_normal ∷ []),
        ground (arith, t, u),
        ground (arith, kept),
        ground (arith, kept),
        ground (arith, kept),
        ground (arith, kept),
      )
