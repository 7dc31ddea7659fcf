-- ===== src/Endpoint/Reaction/Calls.antt =====
-- channel.c: that a request that one of the functions runs is sound.
use wineberry_discord.Prelude.{
  ℕ, ◌≡◌, Bool, true, [], ◌∷◌, Option, none, some, refl, Bool-cases, inl, inr, arith,
}
use wineberry_discord.Prelude.Texts.{Text}
use wineberry_discord.Endpoint.{Reply, is_set, not_empty}
use wineberry_discord.Endpoint.Sound.{IsSound, sound_rules}
use wineberry_discord.Endpoint.Reaction
use wineberry_discord.Endpoint.Reaction.{emoji_endpoint}

pub data ReactionCall : Type 0 where
  create_reaction : ℕ → ℕ → ℕ → Option Text → ReactionCall
  delete_own_reaction : ℕ → ℕ → ℕ → Option Text → ReactionCall
  delete_user_reaction : ℕ → ℕ → ℕ → ℕ → Option Text → ReactionCall
  delete_all_reactions_for_emoji : ℕ → ℕ → ℕ → Option Text → ReactionCall

abbrev pub reply : ReactionCall → Reply
reply (create_reaction channel_id message_id emoji_id escaped) =
    Reaction.create_reaction channel_id message_id emoji_id escaped
reply (delete_own_reaction channel_id message_id emoji_id escaped) =
    Reaction.delete_own_reaction channel_id message_id emoji_id escaped
reply (delete_user_reaction channel_id message_id user_id emoji_id escaped) =
    Reaction.delete_user_reaction channel_id message_id user_id emoji_id escaped
reply (delete_all_reactions_for_emoji channel_id message_id emoji_id escaped) =
    Reaction.delete_all_reactions_for_emoji channel_id message_id emoji_id escaped

-- What the functions do not check themselves.
abbrev pub is_checked : ReactionCall → Bool
is_checked (create_reaction channel_id message_id emoji_id escaped) = not_empty escaped
is_checked (delete_own_reaction channel_id message_id emoji_id escaped) = not_empty escaped
is_checked (delete_user_reaction channel_id message_id user_id emoji_id escaped) = not_empty escaped
is_checked (delete_all_reactions_for_emoji channel_id message_id emoji_id escaped) =
    not_empty escaped

emoji_endpoint-filled :
    (escaped : Option Text) (emoji_id : ℕ)
    → not_empty escaped ≡ true
    → not_empty (emoji_endpoint escaped emoji_id) ≡ true
emoji_endpoint-filled none emoji_id e = e
emoji_endpoint-filled (some []) emoji_id e = absurd (ground (arith, e))
emoji_endpoint-filled (some (c ∷ s)) emoji_id e = elim (Bool-cases (is_set emoji_id)) [
  | inl y ↦ rw y refl
  | inr n ↦ rw n refl
]

pub reply-IsSound : (c : ReactionCall) → is_checked c ≡ true → IsSound (reply c)
unfolding wineberry_discord.Rest.Key.consume
reply-IsSound (create_reaction channel_id message_id emoji_id escaped) e =
    search (sound_rules, emoji_endpoint-filled) depth 12
reply-IsSound _ e = search (sound_rules, emoji_endpoint-filled) depth 12
