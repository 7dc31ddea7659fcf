-- ===== src/Voice/Tests.antt =====
-- Slots of voice connections, and the theorems about them at them.
use wineberry_discord.Prelude.{◌≡◌, ◌⊎◌, ◌==◌, true, false, List, [], ◌∷◌, some, arith, refl}
use wineberry_discord.Prelude.Texts.{codes}
use wineberry_discord.Voice.{
  Voice, Step, hello, ready, server_crash, unknown_opcode, other_close, normal, identify, resume,
  on_hello, init_vc, voice_shutdown, set_url, ws_start, ws_end,
}
use wineberry_discord.Voice.Slots.{Slots, Join, find_slot, voice_join, slot, exhaust_capacity}
use wineberry_discord.Voice.Slots.Chosen.{Reaches, voice_join-Reaches}
use wineberry_discord.Voice.Thread.{
  Happening, text, closed, server, event_loop, after_loop, leave, run_thread,
}
use wineberry_discord.Voice.Thread.Ends.{run_thread-ends}
use wineberry_discord.Voice.Thread.Close.{run_thread-closed, event_loop-server}

-- A free slot.
abbrev free_slot : Voice
free_slot = record {
  guild_id = 0;
  channel_id = 0;
  token = [];
  new_token = [];
  new_url = [];
  session_id = [];
  has_ws = false;
  enable = false;
  attempt = 0;
  threshold = 0;
  is_resumable = false;
  is_redirect = false;
  is_ready = false;
  interval_ms = 0;
  tstamp = 0;
  ping_ms = 0;
  shutdown = false;
}

-- The slot of the guild 41 in the channel 7.
abbrev busy_slot : Voice
busy_slot = record (init_vc 41 7 free_slot) { session_id = codes "s"; token = codes "t" }

abbrev other_channel : Join
other_channel = record { guild_id = 41; channel_id = 8; self_mute = false; self_deaf = false }

-- With a free slot before its own, the guild gets a second slot.
two_slots :
    slot (voice_join true (λ i. i == 1) other_channel (free_slot ∷ busy_slot ∷ [])).slots 1
    ≡ some busy_slot
unfolding voice_join wineberry_discord.Voice.Slots.pick_slot
two_slots = refl

-- A slot that was shut down keeps its ban on reconnecting for its next guild.
stays_disabled : (init_vc 42 9 (leave [] (voice_shutdown busy_slot).0)).enable ≡ false
stays_disabled = refl

voice_join-Reaches_example :
    Reaches other_channel
      (free_slot ∷ busy_slot ∷ [])
      (voice_join true (λ i. i == 1) other_channel (free_slot ∷ busy_slot ∷ [])).slots
unfolding voice_join wineberry_discord.Voice.Slots.pick_slot
voice_join-Reaches_example =
    voice_join-Reaches true (λ i. i == 1) other_channel (free_slot ∷ busy_slot ∷ []) refl

abbrev crash : List Happening
crash = text 0 (hello 4000) ∷ closed server_crash ∷ []

run_thread-ends_example :
    (s : Step) × (run_thread (codes "/?v=4") (crash ∷ crash ∷ crash ∷ crash ∷ crash ∷ []) busy_slot
      ≡ some (s, true))
    × (s.0.guild_id ≡ 0)
run_thread-ends_example =
    run_thread-ends (codes "/?v=4") (crash ∷ crash ∷ crash ∷ crash ∷ crash ∷ []) busy_slot
      (refl, (refl, (refl, (refl, (refl, tt))))) refl (omega arith) (omega arith)

run_thread-closed_example :
    (s : Step) × (run_thread [] ((closed server_crash ∷ []) ∷ []) busy_slot ≡ some (s, false))
    × ((true ≡ false) ⊎ ((on_hello 5 4000 s.0).1 ≡ resume 41 (codes "s") (codes "t") ∷ []))
run_thread-closed_example =
    run_thread-closed [] server_crash busy_slot 5 4000 refl refl (omega arith) (omega arith)

-- The last attempt of five: the crash ends the thread.
abbrev weary_slot : Voice
weary_slot = record busy_slot { attempt = 4 }

last_attempt :
    run_thread [] ((closed server_crash ∷ []) ∷ []) weary_slot
    ≡ some (
      (leave [] (record weary_slot { attempt = 5; is_resumable = true }), ws_start ∷ ws_end ∷ []),
      true,
    )
unfolding run_thread
last_attempt = refl

event_loop-server_example :
    (s : Step) × (event_loop []
        (server (codes "u") (codes "eu") ∷ closed other_close ∷ [])
        busy_slot
      ≡ some s)
    × ((after_loop [] s.0).1 ≡ true)
    × ((after_loop [] s.0).0.0.attempt ≡ 0)
    × ((after_loop [] s.0).0.1 ≡ set_url (codes "wss://eu") ∷ [])
    × ((on_hello 5 4000 (after_loop [] s.0).0.0).1 ≡ identify 41 (codes "s") (codes "u") ∷ [])
event_loop-server_example =
    event_loop-server [] (codes "u") (codes "eu") other_close busy_slot 5 4000 (omega arith)
      (omega arith)
