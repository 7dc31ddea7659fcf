-- ===== src/Endpoint/Emoji.antt =====
-- emoji.c: the functions that begin a request.
pub mod Calls
use wineberry_discord.Prelude.{ℕ, [], ◌∷◌, Option, none, some, ◌/◌}
use wineberry_discord.Prelude.Texts.{Text, codes}
use wineberry_discord.Rest.Key.{get, post, patch, delete, id}
use wineberry_discord.Endpoint.{object, list, blank, Reply, runs, expect, given, is_set, reason_of}

abbrev pub list_guild_emojis : ℕ → Reply
list_guild_emojis guild_id =
    expect (is_set guild_id)
      (runs get none none list (codes "/guilds/%lu/emojis") (id guild_id ∷ []))

abbrev pub get_guild_emoji : ℕ → ℕ → Reply
get_guild_emoji guild_id emoji_id = expect (is_set guild_id) (
    expect (is_set emoji_id)
      (runs get none none object (codes "/guilds/%lu/emojis/%lu") (id guild_id ∷ id emoji_id ∷ [])))

abbrev pub create_guild_emoji : ℕ → Option (Option Text) → ℕ → Reply
create_guild_emoji guild_id params size = expect (is_set guild_id) (
    given params (λ reason.
      runs post (some size) reason object (codes "/guilds/%lu/emojis") (id guild_id ∷ [])))

abbrev pub modify_guild_emoji : ℕ → ℕ → Option (Option Text) → ℕ → Reply
modify_guild_emoji guild_id emoji_id params size = expect (is_set guild_id) (
    expect (is_set emoji_id) (
      given params (λ reason.
        runs patch (some size) reason object (codes "/guilds/%lu/emojis/%lu")
          (id guild_id ∷ id emoji_id ∷ []))))

abbrev pub delete_guild_emoji : ℕ → ℕ → Option (Option Text) → Reply
delete_guild_emoji guild_id emoji_id params = expect (is_set guild_id) (
    expect (is_set emoji_id) (
      runs delete none (reason_of params) blank (codes "/guilds/%lu/emojis/%lu")
        (id guild_id ∷ id emoji_id ∷ [])))
