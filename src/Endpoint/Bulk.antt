-- ===== src/Endpoint/Bulk.antt =====
-- channel.c and gateway.c: `winecord_bulk_delete_messages` and `winecord_disconnect_guild_member`.
pub mod Calls
use wineberry_discord.Prelude.{
  ℕ, ◌&&◌, Bool, true, false, List, [], ◌∷◌, Option, none, some, leb, ◌+◌, ◌-◌, ◌/◌, ◌^◌, ◌||◌,
  length,
}
use wineberry_discord.Chash.{is_some}
use wineberry_discord.Prelude.Texts.{Text, codes}
use wineberry_discord.Rest.Key.{post, patch, id}
use wineberry_discord.Endpoint.{object, blank, Reply, runs, expect, given, is_set, reason_of}

-- From 2 to 100 messages.
abbrev pub is_bulk : Option (List ℕ) → Bool
is_bulk none = false
is_bulk (some messages) = leb 2 (length messages) && leb (length messages) 100

-- A message that is not older than two weeks; the time of a message is in its id.
abbrev pub is_recent : ℕ → ℕ → Bool
is_recent now message =
    let tstamp = message / 2 ^ 22 + 1420070400000 in leb now tstamp || leb (now - tstamp) 1209600000

abbrev pub are_recent : ℕ → List ℕ → Bool
are_recent now [] = true
are_recent now (message ∷ messages) = is_recent now message && are_recent now messages

abbrev pub all_recent : ℕ → Option (List ℕ) → Bool
all_recent now none = false
all_recent now (some messages) = are_recent now messages

pub record BulkDeleteMessages : Type 0 where
  pub messages : Option (List ℕ)
  pub reason : Option Text

abbrev pub bulk_delete_messages : ℕ → ℕ → Option BulkDeleteMessages → ℕ → Reply
bulk_delete_messages now channel_id params size = given params (λ p. expect (is_some p.messages) (
    expect (is_bulk p.messages) (
      expect (all_recent now p.messages) (
        runs post (some size) p.reason blank (codes "/channels/%lu/messages/bulk-delete")
          (id channel_id ∷ [])))))

abbrev pub disconnect_guild_member : ℕ → ℕ → Option (Option Text) → ℕ → Reply
disconnect_guild_member guild_id user_id params size = expect (is_set guild_id) (
    expect (is_set user_id) (
      runs patch (some size) (reason_of params) object (codes "/guilds/%lu/members/%lu")
        (id guild_id ∷ id user_id ∷ [])))
