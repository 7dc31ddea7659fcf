-- ===== src/Voice/Thread.antt =====
-- winecord-voice.c: a connection and the thread of a slot, `event_loop` and `start_voice_ws_thread`.
pub mod Ends
pub mod Close
use wineberry_discord.Prelude.{
  ℕ, ◌+◌, ◌%◌, Bool, true, false, not, List, [], ◌∷◌, ◌++◌, Option, none, some, ltb, if◌then◌else◌,
}
use wineberry_discord.Prelude.Texts.{Text}
use wineberry_discord.Voice.{
  Voice, CloseOpcode, Frame, heartbeat, ws_start, ws_end, set_url, Step, reset_vc, since, on_close,
  on_text, voice_shutdown, voice_reconnect, server_update, state_update,
}

-- What happens to a slot between two turns of the loop of its thread. A frame and a turn have their
-- time.
pub data Happening : Type 0 where
  text : ℕ → Frame → Happening
  closed : CloseOpcode → Happening
  turn : ℕ → Happening
  shuts_down : Happening
  reconnects : Bool → Happening
  server : Text → Text → Happening
  state : ℕ → Text → Happening

-- A turn of `event_loop` after `ws_easy_run`
abbrev pub on_turn : ℕ → Voice → Step
on_turn now vc =
    if vc.shutdown
    then (vc, [])
    else if not vc.is_ready
    then (vc, [])
    else if ltb vc.interval_ms (since now vc.tstamp)
    then (record vc { tstamp = now }, heartbeat vc.interval_ms ∷ [])
    else (vc, [])

module _ (suffix : Text) where
  abbrev pub happen : Happening → Voice → Option Step
  happen (text now frame) vc = some (on_text now frame vc)
  happen (closed opcode) vc = some (on_close opcode vc, [])
  happen (turn now) vc = some (on_turn now vc)
  happen shuts_down vc = some (voice_shutdown vc)
  happen (reconnects resume_it) vc = some (voice_reconnect resume_it vc)
  happen (server token endpoint) vc = server_update suffix true token endpoint vc
  happen (state channel_id session_id) vc = elim (state_update channel_id session_id vc) [
    | none ↦ none
    | some vc' ↦ some (vc', [])
  ]

  unfoldable pub happen_all : List Happening → Voice → Option Step
  happen_all [] vc = some (vc, [])
  happen_all (h ∷ hs) vc = elim (happen h vc) [
    | none ↦ none
    | some (vc', effects) ↦ elim (happen_all hs vc') [
      | none ↦ none
      | some (vc'', more) ↦ some (vc'', effects ++ more)
    ]
  ]

  -- The end of `event_loop`
  abbrev pub sever : Step → Step
  sever (vc, effects) =
      (record vc { shutdown = false; is_ready = false }, ws_start ∷ (effects ++ ws_end ∷ []))

  -- `event_loop`, until the connection is severed
  unfoldable pub event_loop : List Happening → Voice → Option Step
  unfolding happen_all
  event_loop hs vc = elim (happen_all hs vc) [ none ↦ none | some s ↦ some (sever s) ]

  -- What the thread does after a connection, and whether it goes on.
  abbrev pub after_loop : Voice → Step × Bool
  after_loop vc =
      if vc.is_redirect
      then (
        (
          record vc {
            token = vc.new_token;
            is_redirect = false;
            attempt = 0;
            enable = true;
            is_resumable = false;
          },
          set_url vc.new_url ∷ [],
        ),
        true,
      )
      else if not vc.enable
      then ((vc, []), false)
      else ((record vc { attempt = (vc.attempt + 1) % 256 }, []), true)

  -- The end of the thread, which puts the slot back to the pool.
  abbrev pub leave : Voice → Voice
  leave vc = record (reset_vc vc) { guild_id = 0 }

  -- The thread, over the connections that come about. With the slot, whether the thread has ended: it
  -- has not while the next connection is open.
  unfoldable pub run_thread : List (List Happening) → Voice → Option (Step × Bool)
  unfolding event_loop
  run_thread [] vc =
      if ltb vc.attempt vc.threshold then some ((vc, []), false) else some ((leave vc, []), true)
  run_thread (c ∷ cs) vc = elim (ltb vc.attempt vc.threshold) [
    | false ↦ some ((leave vc, []), true)
    | true ↦ elim (event_loop c vc) [
      | none ↦ none
      | some (vc', effects) ↦
          let ((vc'', set), goes_on) = after_loop vc' in
          elim goes_on [
            | false ↦ some ((leave vc'', effects ++ set), true)
            | true ↦ elim (run_thread cs vc'') [
              | none ↦ none
              | some ((last, more), ended) ↦ some ((last, effects ++ (set ++ more)), ended)
            ]
          ]
    ]
  ]
