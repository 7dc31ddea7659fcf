-- ===== src/Endpoint/ApplicationCommand.antt =====
-- application-command.c: the functions that begin a request.
pub mod Calls
use wineberry_discord.Prelude.{ℕ, Bool, [], ◌∷◌, Option, none, some, ◌/◌}
use wineberry_discord.Prelude.Texts.{Text, codes}
use wineberry_discord.Rest.Key.{get, put, post, patch, delete, id}
use wineberry_discord.Endpoint.{object, list, blank, Reply, runs, expect, given, is_set, not_empty}

abbrev pub get_global_application_commands : ℕ → Reply
get_global_application_commands application_id =
    expect (is_set application_id)
      (runs get none none list (codes "/applications/%lu/commands") (id application_id ∷ []))

pub record CreateGlobalApplicationCommand : Type 0 where
  pub name : Option Text
  pub description : Option Text

abbrev pub create_global_application_command : ℕ → Option CreateGlobalApplicationCommand → ℕ → Reply
create_global_application_command application_id params size = expect (is_set application_id) (
    given params (λ p. expect (not_empty p.name) (
      expect (not_empty p.description) (
        runs post (some size) none object (codes "/applications/%lu/commands")
          (id application_id ∷ [])))))

abbrev pub get_global_application_command : ℕ → ℕ → Reply
get_global_application_command application_id command_id = expect (is_set application_id) (
    expect (is_set command_id) (
      runs get none none object (codes "/applications/%lu/commands/%lu")
        (id application_id ∷ id command_id ∷ [])))

abbrev pub edit_global_application_command : ℕ → ℕ → ℕ → Reply
edit_global_application_command application_id command_id size = expect (is_set application_id) (
    expect (is_set command_id) (
      runs patch (some size) none object (codes "/applications/%lu/commands/%lu")
        (id application_id ∷ id command_id ∷ [])))

abbrev pub delete_global_application_command : ℕ → ℕ → Reply
delete_global_application_command application_id command_id = expect (is_set application_id) (
    expect (is_set command_id) (
      runs delete none none blank (codes "/applications/%lu/commands/%lu")
        (id application_id ∷ id command_id ∷ [])))

abbrev pub bulk_overwrite_global_application_commands : ℕ → Bool → ℕ → Reply
bulk_overwrite_global_application_commands application_id has_params size =
    expect (is_set application_id) (
      expect has_params (
        runs put (some size) none list (codes "/applications/%lu/commands")
          (id application_id ∷ [])))

abbrev pub get_guild_application_commands : ℕ → ℕ → Reply
get_guild_application_commands application_id guild_id = expect (is_set application_id) (
    expect (is_set guild_id) (
      runs get none none list (codes "/applications/%lu/guilds/%lu/commands")
        (id application_id ∷ id guild_id ∷ [])))

pub record CreateGuildApplicationCommand : Type 0 where
  pub name : Option Text
  pub description : Option Text

abbrev pub create_guild_application_command :
    ℕ → ℕ → Option CreateGuildApplicationCommand → ℕ → Reply
create_guild_application_command application_id guild_id params size =
    expect (is_set application_id) (
      expect (is_set guild_id) (
        given params (λ p. expect (not_empty p.name) (
          expect (not_empty p.description) (
            runs post (some size) none object (codes "/applications/%lu/guilds/%lu/commands")
              (id application_id ∷ id guild_id ∷ []))))))

abbrev pub get_guild_application_command : ℕ → ℕ → ℕ → Reply
get_guild_application_command application_id guild_id command_id = expect (is_set application_id) (
    expect (is_set guild_id) (
      expect (is_set command_id) (
        runs get none none object (codes "/applications/%lu/guilds/%lu/commands/%lu")
          (id application_id ∷ id guild_id ∷ id command_id ∷ []))))

abbrev pub edit_guild_application_command : ℕ → ℕ → ℕ → ℕ → Reply
edit_guild_application_command application_id guild_id command_id size =
    expect (is_set application_id) (
      expect (is_set guild_id) (
        expect (is_set command_id) (
          runs patch (some size) none object (codes "/applications/%lu/guilds/%lu/commands/%lu")
            (id application_id ∷ id guild_id ∷ id command_id ∷ []))))

abbrev pub delete_guild_application_command : ℕ → ℕ → ℕ → Reply
delete_guild_application_command application_id guild_id command_id =
    expect (is_set application_id) (
      expect (is_set guild_id) (
        expect (is_set command_id) (
          runs delete none none blank (codes "/applications/%lu/guilds/%lu/commands/%lu")
            (id application_id ∷ id guild_id ∷ id command_id ∷ []))))

abbrev pub bulk_overwrite_guild_application_commands : ℕ → ℕ → Bool → ℕ → Reply
bulk_overwrite_guild_application_commands application_id guild_id has_params size =
    expect (is_set application_id) (
      expect (is_set guild_id) (
        expect has_params (
          runs put (some size) none list (codes "/applications/%lu/guilds/%lu/commands")
            (id application_id ∷ id guild_id ∷ []))))

abbrev pub get_guild_application_command_permissions : ℕ → ℕ → Reply
get_guild_application_command_permissions application_id guild_id = expect (is_set application_id) (
    expect (is_set guild_id) (
      runs get none none list (codes "/applications/%lu/guilds/%lu/commands/permissions")
        (id application_id ∷ id guild_id ∷ [])))

abbrev pub get_application_command_permissions : ℕ → ℕ → ℕ → Reply
get_application_command_permissions application_id guild_id command_id =
    expect (is_set application_id) (
      expect (is_set guild_id) (
        expect (is_set command_id) (
          runs get none none object (codes "/applications/%lu/guilds/%lu/commands/%lu/permissions")
            (id application_id ∷ id guild_id ∷ id command_id ∷ []))))
