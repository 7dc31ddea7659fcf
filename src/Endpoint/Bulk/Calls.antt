-- ===== src/Endpoint/Bulk/Calls.antt =====
-- channel.c and gateway.c: that a request that one of the functions runs is sound.
use wineberry_discord.Prelude.{ℕ, ◌≡◌, Bool, true, Option}
use wineberry_discord.Prelude.Texts.{Text}
use wineberry_discord.Endpoint.{Reply, is_set}
use wineberry_discord.Endpoint.Sound.{IsSound, sound_rules}
use wineberry_discord.Endpoint.Bulk
use wineberry_discord.Endpoint.Bulk.{BulkDeleteMessages, is_bulk, all_recent}

pub data BulkCall : Type 0 where
  bulk_delete_messages : ℕ → ℕ → Option BulkDeleteMessages → ℕ → BulkCall
  disconnect_guild_member : ℕ → ℕ → Option (Option Text) → ℕ → BulkCall

abbrev pub reply : BulkCall → Reply
reply (bulk_delete_messages now channel_id params size) =
    Bulk.bulk_delete_messages now channel_id params size
reply (disconnect_guild_member guild_id user_id params size) =
    Bulk.disconnect_guild_member guild_id user_id params size

-- What the functions do not check themselves.
abbrev pub is_checked : BulkCall → Bool
is_checked (bulk_delete_messages now channel_id params size) = is_set channel_id
is_checked c = true

pub reply-IsSound : (c : BulkCall) → is_checked c ≡ true → IsSound (reply c)
unfolding wineberry_discord.Rest.Key.consume
reply-IsSound (bulk_delete_messages now channel_id params size) e = search sound_rules depth 12
reply-IsSound _ e = search sound_rules depth 12
