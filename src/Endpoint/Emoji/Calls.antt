-- ===== src/Endpoint/Emoji/Calls.antt =====
-- emoji.c: that a request that one of the functions runs is sound.
use wineberry_discord.Prelude.{ℕ, Option}
use wineberry_discord.Prelude.Texts.{Text}
use wineberry_discord.Endpoint.{Reply}
use wineberry_discord.Endpoint.Sound.{IsSound, sound_rules}
use wineberry_discord.Endpoint.Emoji

pub data EmojiCall : Type 0 where
  list_guild_emojis : ℕ → EmojiCall
  get_guild_emoji : ℕ → ℕ → EmojiCall
  create_guild_emoji : ℕ → Option (Option Text) → ℕ → EmojiCall
  modify_guild_emoji : ℕ → ℕ → Option (Option Text) → ℕ → EmojiCall
  delete_guild_emoji : ℕ → ℕ → Option (Option Text) → EmojiCall

abbrev pub reply : EmojiCall → Reply
reply (list_guild_emojis guild_id) = Emoji.list_guild_emojis guild_id
reply (get_guild_emoji guild_id emoji_id) = Emoji.get_guild_emoji guild_id emoji_id
reply (create_guild_emoji guild_id params size) = Emoji.create_guild_emoji guild_id params size
reply (modify_guild_emoji guild_id emoji_id params size) =
    Emoji.modify_guild_emoji guild_id emoji_id params size
reply (delete_guild_emoji guild_id emoji_id params) =
    Emoji.delete_guild_emoji guild_id emoji_id params

pub reply-IsSound : (c : EmojiCall) → IsSound (reply c)
unfolding wineberry_discord.Rest.Key.consume
reply-IsSound (list_guild_emojis guild_id) = search sound_rules depth 12
reply-IsSound _ = search sound_rules depth 12
