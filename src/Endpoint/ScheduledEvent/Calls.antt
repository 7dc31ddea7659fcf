-- ===== src/Endpoint/ScheduledEvent/Calls.antt =====
-- guild_scheduled_event.c: that a request that one of the functions runs is sound.
use wineberry_discord.Prelude.{ℕ, Option}
use wineberry_discord.Prelude.Texts.{Text}
use wineberry_discord.Endpoint.{Reply}
use wineberry_discord.Endpoint.Sound.{IsSound, sound_rules}
use wineberry_discord.Endpoint.ScheduledEvent
use wineberry_discord.Endpoint.ScheduledEvent.{CreateGuildScheduledEvent}

pub data ScheduledEventCall : Type 0 where
  create_guild_scheduled_event : ℕ → Option CreateGuildScheduledEvent → ℕ → ScheduledEventCall
  modify_guild_scheduled_event : ℕ → ℕ → Option (Option Text) → ℕ → ScheduledEventCall
  delete_guild_scheduled_event : ℕ → ℕ → ScheduledEventCall

abbrev pub reply : ScheduledEventCall → Reply
reply (create_guild_scheduled_event guild_id params size) =
    ScheduledEvent.create_guild_scheduled_event guild_id params size
reply (modify_guild_scheduled_event guild_id guild_scheduled_event_id params size) =
    ScheduledEvent.modify_guild_scheduled_event guild_id guild_scheduled_event_id params size
reply (delete_guild_scheduled_event guild_id guild_scheduled_event_id) =
    ScheduledEvent.delete_guild_scheduled_event guild_id guild_scheduled_event_id

pub reply-IsSound : (c : ScheduledEventCall) → IsSound (reply c)
unfolding wineberry_discord.Rest.Key.consume
reply-IsSound (create_guild_scheduled_event guild_id params size) = search sound_rules depth 12
reply-IsSound _ = search sound_rules depth 12
