-- ===== src/Endpoint/Sticker/Calls.antt =====
-- sticker.c: that a request that one of the functions runs is sound.
use wineberry_discord.Prelude.{ℕ, Option}
use wineberry_discord.Prelude.Texts.{Text}
use wineberry_discord.Endpoint.{Reply}
use wineberry_discord.Endpoint.Sound.{IsSound, sound_rules}
use wineberry_discord.Endpoint.Sticker

pub data StickerCall : Type 0 where
  get_sticker : ℕ → StickerCall
  list_nitro_sticker_packs : StickerCall
  list_guild_stickers : ℕ → StickerCall
  get_guild_sticker : ℕ → ℕ → StickerCall
  modify_guild_sticker : ℕ → ℕ → Option (Option Text) → ℕ → StickerCall
  delete_guild_sticker : ℕ → ℕ → Option (Option Text) → StickerCall

abbrev pub reply : StickerCall → Reply
reply (get_sticker sticker_id) = Sticker.get_sticker sticker_id
reply list_nitro_sticker_packs = Sticker.list_nitro_sticker_packs
reply (list_guild_stickers guild_id) = Sticker.list_guild_stickers guild_id
reply (get_guild_sticker guild_id sticker_id) = Sticker.get_guild_sticker guild_id sticker_id
reply (modify_guild_sticker guild_id sticker_id params size) =
    Sticker.modify_guild_sticker guild_id sticker_id params size
reply (delete_guild_sticker guild_id sticker_id params) =
    Sticker.delete_guild_sticker guild_id sticker_id params

pub reply-IsSound : (c : StickerCall) → IsSound (reply c)
unfolding wineberry_discord.Rest.Key.consume
reply-IsSound list_nitro_sticker_packs = search sound_rules depth 12
reply-IsSound _ = search sound_rules depth 12
