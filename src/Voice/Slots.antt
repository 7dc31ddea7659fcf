-- ===== src/Voice/Slots.antt =====
-- winecord-voice.c: the search for the slot of a guild, and `winecord_voice_join`.
pub mod Chosen
use wineberry_discord.Prelude.{
  ℕ, zero, suc, ◌==◌, Bool, true, false, List, [], ◌∷◌, ◌++◌, Option, none, some, if◌then◌else◌,
}
use wineberry_discord.Prelude.Texts.{Text}
use wineberry_discord.Voice.{
  Voice, Effect, voice_state, init_vc, recycle_active_vc, server_update, state_update,
}

-- The slots, `client->vcs`
abbrev pub Slots : Type 0
Slots = List Voice

abbrev pub slot : Slots → ℕ → Option Voice
slot [] i = none
slot (vc ∷ vcs) zero = some vc
slot (vc ∷ vcs) (suc i) = slot vcs i

abbrev pub set_slot : Slots → ℕ → Voice → Slots
set_slot [] i vc' = []
set_slot (vc ∷ vcs) zero vc' = vc' ∷ vcs
set_slot (vc ∷ vcs) (suc i) vc' = vc ∷ set_slot vcs i vc'

-- The loops of the two updates: the first slot of a guild.
unfoldable pub find_slot : ℕ → Slots → Option ℕ
find_slot guild_id [] = none
find_slot guild_id (vc ∷ vcs) =
    let rest = find_slot guild_id vcs in
    if guild_id == vc.guild_id then some 0 else elim rest [ none ↦ none | some i ↦ some (suc i) ]

-- The loop of `winecord_voice_join`: the first slot that is free or has the guild.
unfoldable pub pick_slot : ℕ → Slots → Option ℕ
pick_slot guild_id [] = none
pick_slot guild_id (vc ∷ vcs) =
    let rest = pick_slot guild_id vcs in
    if vc.guild_id == 0
    then some 0
    else if guild_id == vc.guild_id
    then some 0
    else elim rest [ none ↦ none | some i ↦ some (suc i) ]

-- `enum winecord_voice_status`
pub data VoiceStatus : Type 0 where
  error exhaust_capacity already_joined joined : VoiceStatus

-- What is asked to be joined.
pub record Join : Type 0 where
  pub guild_id : ℕ
  pub channel_id : ℕ
  pub self_mute : Bool
  pub self_deaf : Bool

-- The slots, what was sent, and the answer.
pub record Joined : Type 0 where
  pub slots : Slots
  pub effects : List Effect
  pub status : VoiceStatus

-- A slot that goes to a channel.
abbrev pub join_with : Bool → Join → Slots → ℕ → Voice → Joined
join_with alive j vcs i vc =
    let (vc', effects) = recycle_active_vc alive j.guild_id j.channel_id vc in
    record {
      slots = set_slot vcs i vc';
      effects = effects ++ voice_state j.guild_id j.channel_id j.self_mute j.self_deaf ∷ [];
      status = joined;
    }

-- A join that changes nothing.
abbrev pub unchanged : Slots → VoiceStatus → Joined
unchanged vcs status = record { slots = vcs; effects = []; status = status }

abbrev pub join_slot : Bool → Join → Slots → ℕ → Voice → Joined
join_slot alive j vcs i vc =
    if vc.guild_id == 0
    then join_with alive j vcs i (init_vc j.guild_id j.channel_id vc)
    else if j.channel_id == vc.channel_id
    then unchanged vcs already_joined
    else join_with alive j vcs i vc

-- `winecord_voice_join`. `functional` is what `ws_is_functional` says of the gateway, and `alive` what
-- `ws_is_alive` says of a slot.
unfoldable pub voice_join : Bool → (ℕ → Bool) → Join → Slots → Joined
voice_join functional alive j vcs = elim functional [
  | false ↦ unchanged vcs error
  | true ↦ elim (pick_slot j.guild_id vcs) [
    | none ↦ unchanged vcs exhaust_capacity
    | some i ↦ elim (slot vcs i) [
      | none ↦ unchanged vcs error
      | some vc ↦ join_slot (alive i) j vcs i vc
    ]
  ]
]

-- `_winecord_on_voice_server_update`
unfoldable pub on_server_update :
    Text → (ℕ → Bool) → ℕ → Text → Text → Slots → Option (Slots × List Effect)
on_server_update suffix alive guild_id token endpoint vcs = elim (find_slot guild_id vcs) [
  | none ↦ some (vcs, [])
  | some i ↦ elim (slot vcs i) [
    | none ↦ some (vcs, [])
    | some vc ↦ elim (server_update suffix (alive i) token endpoint vc) [
      | none ↦ none
      | some (vc', effects) ↦ some (set_slot vcs i vc', effects)
    ]
  ]
]

-- `_winecord_on_voice_state_update`
unfoldable pub on_state_update : ℕ → ℕ → Text → Slots → Option Slots
on_state_update guild_id channel_id session_id vcs = elim (find_slot guild_id vcs) [
  | none ↦ some vcs
  | some i ↦ elim (slot vcs i) [
    | none ↦ some vcs
    | some vc ↦ elim (state_update channel_id session_id vc) [
      | none ↦ none
      | some vc' ↦ some (set_slot vcs i vc')
    ]
  ]
]
