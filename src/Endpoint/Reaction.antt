-- ===== src/Endpoint/Reaction.antt =====
-- channel.c: the functions that name an emoji.
pub mod Calls
use wineberry_discord.Prelude.{ℕ, [], ◌∷◌, Option, none, some, ◌/◌, ◌++◌, take, if◌then◌else◌}
use wineberry_discord.Prelude.Texts.{Text, codes, digits}
use wineberry_discord.Rest.Key.{put, delete, id, text}
use wineberry_discord.Endpoint.{blank, Reply, runs, expect, is_set}

-- `emoji_endpoint`, a buffer of 256 bytes. `escaped` is what curl_escape makes of the name, or a null
-- pointer.
abbrev pub emoji_endpoint : Option Text → ℕ → Option Text
emoji_endpoint none emoji_id = none
emoji_endpoint (some name) emoji_id =
    some (take 255 (if is_set emoji_id then name ++ 58 ∷ digits 20 emoji_id else name))

abbrev pub create_reaction : ℕ → ℕ → ℕ → Option Text → Reply
create_reaction channel_id message_id emoji_id escaped = expect (is_set channel_id) (
    expect (is_set message_id) (
      runs put none none blank (codes "/channels/%lu/messages/%lu/reactions/%s/@me")
        (id channel_id ∷ id message_id ∷ text (emoji_endpoint escaped emoji_id) ∷ [])))

abbrev pub delete_own_reaction : ℕ → ℕ → ℕ → Option Text → Reply
delete_own_reaction channel_id message_id emoji_id escaped = expect (is_set channel_id) (
    expect (is_set message_id) (
      runs delete none none blank (codes "/channels/%lu/messages/%lu/reactions/%s/@me")
        (id channel_id ∷ id message_id ∷ text (emoji_endpoint escaped emoji_id) ∷ [])))

abbrev pub delete_user_reaction : ℕ → ℕ → ℕ → ℕ → Option Text → Reply
delete_user_reaction channel_id message_id user_id emoji_id escaped = expect (is_set channel_id) (
    expect (is_set message_id) (
      expect (is_set user_id) (
        runs delete none none blank (codes "/channels/%lu/messages/%lu/reactions/%s/%lu") (
          id channel_id
          ∷ id message_id
          ∷ text (emoji_endpoint escaped emoji_id)
          ∷ id user_id
          ∷ []))))

abbrev pub delete_all_reactions_for_emoji : ℕ → ℕ → ℕ → Option Text → Reply
delete_all_reactions_for_emoji channel_id message_id emoji_id escaped = expect (is_set channel_id) (
    expect (is_set message_id) (
      runs delete none none blank (codes "/channels/%lu/messages/%lu/reactions/%s")
        (id channel_id ∷ id message_id ∷ text (emoji_endpoint escaped emoji_id) ∷ [])))
