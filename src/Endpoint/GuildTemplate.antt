-- ===== src/Endpoint/GuildTemplate.antt =====
-- guild-template.c: the functions that begin a request.
pub mod Calls
use wineberry_discord.Prelude.{ℕ, [], ◌∷◌, Option, none, some, ◌/◌}
use wineberry_discord.Prelude.Texts.{Text, codes}
use wineberry_discord.Rest.Key.{get, put, post, patch, delete, id, text}
use wineberry_discord.Endpoint.{object, list, Reply, runs, expect, is_set, not_empty}

abbrev pub get_guild_template : Option Text → Reply
get_guild_template template_code =
    expect (not_empty template_code)
      (runs get none none object (codes "/guilds/templates/%s") (text template_code ∷ []))

abbrev pub create_guild_from_guild_template : Option Text → ℕ → Reply
create_guild_from_guild_template template_code size =
    expect (not_empty template_code)
      (runs post (some size) none object (codes "/guilds/templates/%s") (text template_code ∷ []))

abbrev pub get_guild_templates : ℕ → Reply
get_guild_templates guild_id =
    expect (is_set guild_id)
      (runs get none none list (codes "/guilds/%lu/templates") (id guild_id ∷ []))

abbrev pub create_guild_template : ℕ → ℕ → Reply
create_guild_template guild_id size =
    expect (is_set guild_id)
      (runs post (some size) none object (codes "/guilds/%lu/templates") (id guild_id ∷ []))

abbrev pub sync_guild_template : ℕ → Option Text → Reply
sync_guild_template guild_id template_code = expect (is_set guild_id) (
    expect (not_empty template_code) (
      runs put none none object (codes "/guilds/%lu/templates/%s")
        (id guild_id ∷ text template_code ∷ [])))

abbrev pub modify_guild_template : ℕ → Option Text → ℕ → Reply
modify_guild_template guild_id template_code size = expect (is_set guild_id) (
    expect (not_empty template_code) (
      runs patch (some size) none object (codes "/guilds/%lu/templates/%s")
        (id guild_id ∷ text template_code ∷ [])))

abbrev pub delete_guild_template : ℕ → Option Text → Reply
delete_guild_template guild_id template_code = expect (is_set guild_id) (
    expect (not_empty template_code) (
      runs delete none none object (codes "/guilds/%lu/templates/%s")
        (id guild_id ∷ text template_code ∷ [])))
