-- ===== src/Endpoint/Sticker.antt =====
-- sticker.c: the functions that begin a request.
pub mod Calls
use wineberry_discord.Prelude.{ℕ, [], ◌∷◌, Option, none, some, ◌/◌}
use wineberry_discord.Prelude.Texts.{Text, codes}
use wineberry_discord.Rest.Key.{get, patch, delete, id}
use wineberry_discord.Endpoint.{object, list, blank, Reply, runs, expect, is_set, reason_of}

abbrev pub get_sticker : ℕ → Reply
get_sticker sticker_id =
    expect (is_set sticker_id)
      (runs get none none object (codes "/stickers/%lu") (id sticker_id ∷ []))

abbrev pub list_nitro_sticker_packs : Reply
list_nitro_sticker_packs = runs get none none object (codes "/sticker-packs") []

abbrev pub list_guild_stickers : ℕ → Reply
list_guild_stickers guild_id =
    expect (is_set guild_id)
      (runs get none none list (codes "/guilds/%lu/stickers") (id guild_id ∷ []))

abbrev pub get_guild_sticker : ℕ → ℕ → Reply
get_guild_sticker guild_id sticker_id = expect (is_set guild_id) (
    expect (is_set sticker_id) (
      runs get none none object (codes "/guilds/%lu/stickers/%lu")
        (id guild_id ∷ id sticker_id ∷ [])))

abbrev pub modify_guild_sticker : ℕ → ℕ → Option (Option Text) → ℕ → Reply
modify_guild_sticker guild_id sticker_id params size = expect (is_set guild_id) (
    expect (is_set sticker_id) (
      runs patch (some size) (reason_of params) object (codes "/guilds/%lu/stickers/%lu")
        (id guild_id ∷ id sticker_id ∷ [])))

abbrev pub delete_guild_sticker : ℕ → ℕ → Option (Option Text) → Reply
delete_guild_sticker guild_id sticker_id params = expect (is_set guild_id) (
    expect (is_set sticker_id) (
      runs delete none (reason_of params) blank (codes "/guilds/%lu/stickers/%lu")
        (id guild_id ∷ id sticker_id ∷ [])))
