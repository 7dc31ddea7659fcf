-- ===== src/Endpoint/AutoModeration/Calls.antt =====
-- auto_moderation.c: that a request that one of the functions runs is sound.
use wineberry_discord.Prelude.{ℕ, Option}
use wineberry_discord.Prelude.Texts.{Text}
use wineberry_discord.Endpoint.{Reply}
use wineberry_discord.Endpoint.Sound.{IsSound, sound_rules}
use wineberry_discord.Endpoint.AutoModeration
use wineberry_discord.Endpoint.AutoModeration.{CreateAutoModerationRule, ModifyAutoModerationRule}

pub data AutoModerationCall : Type 0 where
  list_auto_moderation_rules_for_guild : ℕ → AutoModerationCall
  get_auto_moderation_rule : ℕ → ℕ → AutoModerationCall
  create_auto_moderation_rule : ℕ → Option CreateAutoModerationRule → ℕ → AutoModerationCall
  modify_auto_moderation_rule : ℕ → ℕ → Option ModifyAutoModerationRule → ℕ → AutoModerationCall
  delete_auto_moderation_rule : ℕ → ℕ → Option (Option Text) → AutoModerationCall

abbrev pub reply : AutoModerationCall → Reply
reply (list_auto_moderation_rules_for_guild guild_id) =
    AutoModeration.list_auto_moderation_rules_for_guild guild_id
reply (get_auto_moderation_rule guild_id auto_moderation_rule_id) =
    AutoModeration.get_auto_moderation_rule guild_id auto_moderation_rule_id
reply (create_auto_moderation_rule guild_id params size) =
    AutoModeration.create_auto_moderation_rule guild_id params size
reply (modify_auto_moderation_rule guild_id auto_moderation_rule_id params size) =
    AutoModeration.modify_auto_moderation_rule guild_id auto_moderation_rule_id params size
reply (delete_auto_moderation_rule guild_id auto_moderation_rule_id params) =
    AutoModeration.delete_auto_moderation_rule guild_id auto_moderation_rule_id params

pub reply-IsSound : (c : AutoModerationCall) → IsSound (reply c)
unfolding wineberry_discord.Rest.Key.consume
reply-IsSound (list_auto_moderation_rules_for_guild guild_id) = search sound_rules depth 12
reply-IsSound _ = search sound_rules depth 12
