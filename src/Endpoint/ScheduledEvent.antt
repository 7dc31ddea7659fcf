-- ===== src/Endpoint/ScheduledEvent.antt =====
-- guild_scheduled_event.c: the functions that begin a request.
pub mod Calls
use wineberry_discord.Prelude.{ℕ, [], ◌∷◌, Option, none, some, ◌/◌}
use wineberry_discord.Prelude.Texts.{Text, codes}
use wineberry_discord.Rest.Key.{post, patch, delete, id}
use wineberry_discord.Endpoint.{
  object, blank, Reply, runs, expect, given, is_set, not_empty, reason_of,
}

pub record CreateGuildScheduledEvent : Type 0 where
  pub name : Option Text
  pub privacy_level : ℕ
  pub scheduled_start_time : ℕ
  pub entity_type : ℕ
  pub reason : Option Text

abbrev pub create_guild_scheduled_event : ℕ → Option CreateGuildScheduledEvent → ℕ → Reply
create_guild_scheduled_event guild_id params size = expect (is_set guild_id) (
    given params (λ p. expect (not_empty p.name) (
      expect (is_set p.privacy_level) (
        expect (is_set p.scheduled_start_time) (
          expect (is_set p.entity_type) (
            runs post (some size) p.reason object (codes "/guilds/%lu/scheduled-events")
              (id guild_id ∷ [])))))))

abbrev pub modify_guild_scheduled_event : ℕ → ℕ → Option (Option Text) → ℕ → Reply
modify_guild_scheduled_event guild_id guild_scheduled_event_id params size =
    expect (is_set guild_id) (
      expect (is_set guild_scheduled_event_id) (
        runs patch (some size) (reason_of params) object (codes "/guilds/%lu/scheduled-events/%lu")
          (id guild_id ∷ id guild_scheduled_event_id ∷ [])))

abbrev pub delete_guild_scheduled_event : ℕ → ℕ → Reply
delete_guild_scheduled_event guild_id guild_scheduled_event_id = expect (is_set guild_id) (
    expect (is_set guild_scheduled_event_id) (
      runs delete none none blank (codes "/guilds/%lu/scheduled-events/%lu")
        (id guild_id ∷ id guild_scheduled_event_id ∷ [])))
