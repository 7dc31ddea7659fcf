-- ===== src/Endpoint/AutoModeration.antt =====
-- auto_moderation.c: the functions that begin a request.
pub mod Calls
use wineberry_discord.Prelude.{ℕ, Bool, [], ◌∷◌, Option, none, some, ◌/◌}
use wineberry_discord.Prelude.Texts.{Text, codes}
use wineberry_discord.Rest.Key.{get, post, patch, delete, id}
use wineberry_discord.Endpoint.{
  object, list, blank, Reply, runs, expect, given, is_set, not_empty, reason_of,
}

abbrev pub list_auto_moderation_rules_for_guild : ℕ → Reply
list_auto_moderation_rules_for_guild guild_id =
    expect (is_set guild_id)
      (runs get none none list (codes "/guilds/%lu/auto-moderation/rules") (id guild_id ∷ []))

abbrev pub get_auto_moderation_rule : ℕ → ℕ → Reply
get_auto_moderation_rule guild_id auto_moderation_rule_id = expect (is_set guild_id) (
    expect (is_set auto_moderation_rule_id) (
      runs get none none object (codes "/guilds/%lu/auto-moderation/rules/%lu")
        (id guild_id ∷ id auto_moderation_rule_id ∷ [])))

pub record CreateAutoModerationRule : Type 0 where
  pub name : Option Text
  pub event_type : ℕ
  pub trigger_type : ℕ
  pub actions : Bool
  pub reason : Option Text

abbrev pub create_auto_moderation_rule : ℕ → Option CreateAutoModerationRule → ℕ → Reply
create_auto_moderation_rule guild_id params size = expect (is_set guild_id) (
    given params (λ p. expect (not_empty p.name) (
      expect (is_set p.event_type) (
        expect (is_set p.trigger_type) (
          expect p.actions (
            runs post (some size) p.reason object (codes "/guilds/%lu/auto-moderation/rules")
              (id guild_id ∷ [])))))))

pub record ModifyAutoModerationRule : Type 0 where
  pub name : Option Text
  pub event_type : ℕ
  pub actions : Bool
  pub reason : Option Text

abbrev pub modify_auto_moderation_rule : ℕ → ℕ → Option ModifyAutoModerationRule → ℕ → Reply
modify_auto_moderation_rule guild_id auto_moderation_rule_id params size =
    expect (is_set guild_id) (
      expect (is_set auto_moderation_rule_id) (
        given params (λ p. expect (not_empty p.name) (
          expect (is_set p.event_type) (
            expect p.actions (
              runs patch (some size) p.reason object (codes "/guilds/%lu/auto-moderation/rules/%lu")
                (id guild_id ∷ id auto_moderation_rule_id ∷ [])))))))

abbrev pub delete_auto_moderation_rule : ℕ → ℕ → Option (Option Text) → Reply
delete_auto_moderation_rule guild_id auto_moderation_rule_id params = expect (is_set guild_id) (
    expect (is_set auto_moderation_rule_id) (
      runs delete none (reason_of params) blank (codes "/guilds/%lu/auto-moderation/rules/%lu")
        (id guild_id ∷ id auto_moderation_rule_id ∷ [])))
