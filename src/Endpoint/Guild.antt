-- ===== src/Endpoint/Guild.antt =====
-- guild.c: the functions that begin a request about a guild.
pub mod Calls
use wineberry_discord.Prelude.{ℕ, Bool, [], ◌∷◌, Option, none, some, ◌/◌}
use wineberry_discord.Prelude.Texts.{Text, codes}
use wineberry_discord.Rest.Key.{get, post, patch, delete, id}
use wineberry_discord.Endpoint.{object, list, blank, Reply, runs, expect, given, is_set, reason_of}

abbrev pub create_guild : Bool → ℕ → Reply
create_guild has_params size =
    expect has_params (runs post (some size) none object (codes "/guilds") [])

abbrev pub get_guild : ℕ → Reply
get_guild guild_id =
    expect (is_set guild_id) (runs get none none object (codes "/guilds/%lu") (id guild_id ∷ []))

abbrev pub get_guild_preview : ℕ → Reply
get_guild_preview guild_id =
    expect (is_set guild_id)
      (runs get none none object (codes "/guilds/%lu/preview") (id guild_id ∷ []))

abbrev pub modify_guild : ℕ → Option (Option Text) → ℕ → Reply
modify_guild guild_id params size = expect (is_set guild_id) (
    given params
      (λ reason. runs patch (some size) reason object (codes "/guilds/%lu") (id guild_id ∷ [])))

abbrev pub delete_guild : ℕ → Reply
delete_guild guild_id =
    expect (is_set guild_id) (runs delete none none blank (codes "/guilds/%lu") (id guild_id ∷ []))

abbrev pub get_guild_channels : ℕ → Reply
get_guild_channels guild_id =
    expect (is_set guild_id)
      (runs get none none list (codes "/guilds/%lu/channels") (id guild_id ∷ []))

abbrev pub create_guild_channel : ℕ → Option (Option Text) → ℕ → Reply
create_guild_channel guild_id params size = expect (is_set guild_id) (
    given params (λ reason.
      runs post (some size) reason object (codes "/guilds/%lu/channels") (id guild_id ∷ [])))

abbrev pub modify_guild_channel_positions : ℕ → Bool → ℕ → Reply
modify_guild_channel_positions guild_id has_params size = expect (is_set guild_id) (
    expect has_params
      (runs patch (some size) none blank (codes "/guilds/%lu/channels") (id guild_id ∷ [])))

abbrev pub begin_guild_prune : ℕ → Option (Option Text) → ℕ → Reply
begin_guild_prune guild_id params size =
    expect (is_set guild_id) (
      runs post (some size) (reason_of params) blank (codes "/guilds/%lu/prune") (id guild_id ∷ []))

abbrev pub get_guild_voice_regions : ℕ → Reply
get_guild_voice_regions guild_id =
    expect (is_set guild_id)
      (runs get none none list (codes "/guilds/%lu/regions") (id guild_id ∷ []))

abbrev pub get_guild_invites : ℕ → Reply
get_guild_invites guild_id =
    expect (is_set guild_id)
      (runs get none none list (codes "/guilds/%lu/invites") (id guild_id ∷ []))

abbrev pub get_guild_integrations : ℕ → Reply
get_guild_integrations guild_id =
    expect (is_set guild_id)
      (runs get none none list (codes "/guilds/%lu/integrations") (id guild_id ∷ []))

abbrev pub delete_guild_integrations : ℕ → ℕ → Option (Option Text) → Reply
delete_guild_integrations guild_id integration_id params = expect (is_set guild_id) (
    expect (is_set integration_id) (
      runs delete none (reason_of params) blank (codes "/guilds/%lu/integrations/%lu")
        (id guild_id ∷ id integration_id ∷ [])))

abbrev pub get_guild_widget_settings : ℕ → Reply
get_guild_widget_settings guild_id =
    expect (is_set guild_id)
      (runs get none none object (codes "/guilds/%lu/widget") (id guild_id ∷ []))

abbrev pub modify_guild_widget : ℕ → Option (Option Text) → ℕ → Reply
modify_guild_widget guild_id params size = expect (is_set guild_id) (
    given params (λ reason.
      runs patch (some size) reason object (codes "/guilds/%lu/widget") (id guild_id ∷ [])))

abbrev pub get_guild_widget : ℕ → Reply
get_guild_widget guild_id =
    expect (is_set guild_id)
      (runs get none none object (codes "/guilds/%lu/widget.json") (id guild_id ∷ []))

abbrev pub get_guild_vanity_url : ℕ → Reply
get_guild_vanity_url guild_id =
    expect (is_set guild_id)
      (runs get none none object (codes "/guilds/%lu/vanity-url") (id guild_id ∷ []))

abbrev pub get_guild_welcome_screen : ℕ → Reply
get_guild_welcome_screen guild_id =
    expect (is_set guild_id)
      (runs get none none object (codes "/guilds/%lu/welcome-screen") (id guild_id ∷ []))

abbrev pub modify_guild_welcome_screen : ℕ → Option (Option Text) → ℕ → Reply
modify_guild_welcome_screen guild_id params size = expect (is_set guild_id) (
    runs patch (some size) (reason_of params) object (codes "/guilds/%lu/welcome-screen")
      (id guild_id ∷ []))
