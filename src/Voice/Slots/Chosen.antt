-- ===== src/Voice/Slots/Chosen.antt =====
-- winecord-voice.c: that the updates for a guild reach the slot that `winecord_voice_join` gave it.
use wineberry_discord.Prelude.{
  ℕ, zero, suc, ◌≡◌, ◌==◌, Bool, true, false, [], ◌∷◌, some, arith, refl, Bool-cases, Option-cases,
  inl, inr, ap, subst, sym,
}
use wineberry_discord.Voice.{Voice, init_vc, recycle_active_vc}
use wineberry_discord.Voice.Slots.{
  Slots, slot, set_slot, find_slot, pick_slot, VoiceStatus, already_joined, joined, Join, join_with,
  join_slot, voice_join,
}

-- The bot is in the channel, or it has asked for it.
abbrev pub is_in : VoiceStatus → Bool
is_in joined = true
is_in already_joined = true
is_in status = false

slot-set_slot :
    (vcs : Slots) (i : ℕ) (vc vc' : Voice)
    → slot vcs i ≡ some vc
    → slot (set_slot vcs i vc') i ≡ some vc'
slot-set_slot [] i vc vc' e = absurd (ground (arith, e))
slot-set_slot (v ∷ vcs) zero vc vc' e = refl
slot-set_slot (v ∷ vcs) (suc i) vc vc' e = slot-set_slot vcs i vc vc' e

slot-set_slot_other :
    (vcs : Slots) (i k : ℕ) (vc' : Voice)
    → (k == i) ≡ false
    → slot (set_slot vcs i vc') k ≡ slot vcs k
slot-set_slot_other [] i k vc' n = refl
slot-set_slot_other (v ∷ vcs) zero zero vc' n = absurd (ground (arith, n))
slot-set_slot_other (v ∷ vcs) zero (suc k) vc' n = refl
slot-set_slot_other (v ∷ vcs) (suc i) zero vc' n = refl
slot-set_slot_other (v ∷ vcs) (suc i) (suc k) vc' n =
    slot-set_slot_other vcs i k vc' (ground (arith, n))

set_slot-slot : (vcs : Slots) (i : ℕ) (vc : Voice) → slot vcs i ≡ some vc → set_slot vcs i vc ≡ vcs
set_slot-slot [] i vc e = refl
set_slot-slot (v ∷ vcs) zero vc e = ground (arith, e)
set_slot-slot (v ∷ vcs) (suc i) vc e = ap (λ r. v ∷ r) (set_slot-slot vcs i vc e)

slot-pick_slot :
    (g : ℕ) (vcs : Slots) (i : ℕ)
    → pick_slot g vcs ≡ some i
    → (vc : Voice) × (slot vcs i ≡ some vc) × ((vc.guild_id == 0) ≡ false → vc.guild_id ≡ g)
unfolding pick_slot
slot-pick_slot g [] i e = absurd (ground (arith, e))
slot-pick_slot g (v ∷ vcs) i e = elim (Bool-cases (v.guild_id == 0)) [
  | inl y ↦ (v, ground (arith, y, e), λ n. absurd (ground (arith, y, n)))
  | inr n ↦ elim (Bool-cases (g == v.guild_id)) [
    | inl y ↦ (v, ground (arith, n, y, e), λ _. ground (arith, y))
    | inr m ↦ elim (Option-cases (pick_slot g vcs)) [
      | inl p ↦ absurd (ground (arith, n, m, p, e))
      | inr (k, p) ↦
          let (vc, q, h) = slot-pick_slot g vcs k p in (vc, ground (arith, n, m, p, e, q), h)
    ]
  ]
]

-- A slot that a guild gets is the first with that guild.
find_slot-pick_slot :
    (g : ℕ) (vcs : Slots) (i : ℕ) (vc' : Voice)
    → pick_slot g vcs ≡ some i
    → vc'.guild_id ≡ g
    → find_slot g (set_slot vcs i vc') ≡ some i
unfolding pick_slot find_slot
find_slot-pick_slot g [] i vc' e h = absurd (ground (arith, e))
find_slot-pick_slot g (v ∷ vcs) zero vc' e h = ground (arith, h)
find_slot-pick_slot g (v ∷ vcs) (suc i) vc' e h = elim (Option-cases (pick_slot g vcs)) [
  | inl n ↦ absurd (ground (arith, n, e))
  | inr (k, p) ↦
      let same : k ≡ i = ground (arith, p, e) in
      ground (arith, p, e, find_slot-pick_slot g vcs i vc' (ground (arith, p, same)) h)
]

-- What a join leaves: the updates for the guild reach a slot with the channel, and no other slot has
-- changed.
abbrev pub Reaches : Join → Slots → Slots → Type 0
Reaches j before after =
    (i : ℕ) × (vc : Voice) × (find_slot j.guild_id after ≡ some i)
    × (slot after i ≡ some vc)
    × (vc.guild_id ≡ j.guild_id)
    × (vc.channel_id ≡ j.channel_id)
    × ((k : ℕ) → (k == i) ≡ false → slot after k ≡ slot before k)

Reaches-set_slot :
    (j : Join) (vcs : Slots) (i : ℕ) (vc vc' : Voice)
    → pick_slot j.guild_id vcs ≡ some i
    → slot vcs i ≡ some vc
    → vc'.guild_id ≡ j.guild_id
    → vc'.channel_id ≡ j.channel_id
    → Reaches j vcs (set_slot vcs i vc')
Reaches-set_slot j vcs i vc vc' p s g c = (
  i,
  vc',
  find_slot-pick_slot j.guild_id vcs i vc' p g,
  slot-set_slot vcs i vc vc' s,
  g,
  c,
  λ k n. slot-set_slot_other vcs i k vc' n,
)

join_with-Reaches :
    (alive : Bool) (j : Join) (vcs : Slots) (i : ℕ) (vc was : Voice)
    → pick_slot j.guild_id vcs ≡ some i
    → slot vcs i ≡ some was
    → Reaches j vcs (join_with alive j vcs i vc).slots
join_with-Reaches true j vcs i vc was p s =
    Reaches-set_slot j vcs i was (recycle_active_vc true j.guild_id j.channel_id vc).0 p s refl refl
join_with-Reaches false j vcs i vc was p s =
    Reaches-set_slot j vcs i was (recycle_active_vc false j.guild_id j.channel_id vc).0 p s refl
      refl

join_slot-Reaches :
    (alive : Bool) (j : Join) (vcs : Slots) (i : ℕ) (vc : Voice)
    → pick_slot j.guild_id vcs ≡ some i
    → slot vcs i ≡ some vc
    → ((vc.guild_id == 0) ≡ false → vc.guild_id ≡ j.guild_id)
    → Reaches j vcs (join_slot alive j vcs i vc).slots
join_slot-Reaches alive j vcs i vc p s h = elim (Bool-cases (vc.guild_id == 0)) [
  | inl y ↦ rw y (join_with-Reaches alive j vcs i (init_vc j.guild_id j.channel_id vc) vc p s)
  | inr n ↦ elim (Bool-cases (j.channel_id == vc.channel_id)) [
    | inl y ↦ rw n (
        rw y (
          subst (Reaches j vcs) (set_slot-slot vcs i vc s)
            (Reaches-set_slot j vcs i vc vc p s (h n) (ground (arith, y)))))
    | inr m ↦ rw n (rw m (join_with-Reaches alive j vcs i vc vc p s))
  ]
]

-- After a join that does not fail, the updates for the guild reach a slot with the channel that was
-- asked for, and no other slot has changed; whether another slot has the guild too does not matter.
pub voice_join-Reaches :
    (functional : Bool) (alive : ℕ → Bool) (j : Join) (vcs : Slots)
    → is_in (voice_join functional alive j vcs).status ≡ true
    → Reaches j vcs (voice_join functional alive j vcs).slots
unfolding voice_join
voice_join-Reaches false alive j vcs e = absurd (ground (arith, e))
voice_join-Reaches true alive j vcs e = elim (Option-cases (pick_slot j.guild_id vcs)) [
  | inl p ↦ absurd (ground (arith, p, e))
  | inr (i, p) ↦
      let (vc, s, h) = slot-pick_slot j.guild_id vcs i p in
      let same : voice_join true alive j vcs ≡ join_slot (alive i) j vcs i vc =
        ground (arith, p, s) in
      subst (λ r. Reaches j vcs r.slots) (sym same) (join_slot-Reaches (alive i) j vcs i vc p s h)
]
