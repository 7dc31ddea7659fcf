-- ===== src/Endpoint/User.antt =====
-- user.c: the functions that begin a request.
pub mod Calls
use wineberry_discord.Prelude.{ℕ, Bool, [], ◌∷◌, Option, none, some, ◌/◌}
use wineberry_discord.Prelude.Texts.{codes}
use wineberry_discord.Rest.Key.{get, post, patch, delete, id}
use wineberry_discord.Endpoint.{object, list, blank, Reply, runs, expect, given, is_set}

abbrev pub get_current_user : Reply
get_current_user = runs get none none object (codes "/users/@me") []

abbrev pub get_user : ℕ → Reply
get_user user_id =
    expect (is_set user_id) (runs get none none object (codes "/users/%lu") (id user_id ∷ []))

abbrev pub modify_current_user : Bool → ℕ → Reply
modify_current_user has_params size =
    expect has_params (runs patch (some size) none object (codes "/users/@me") [])

abbrev pub get_current_user_guilds : Reply
get_current_user_guilds = runs get none none list (codes "/users/@me/guilds") []

abbrev pub leave_guild : ℕ → Reply
leave_guild guild_id =
    expect (is_set guild_id)
      (runs delete (some 2) none blank (codes "/users/@me/guilds/%lu") (id guild_id ∷ []))

abbrev pub create_dm : Bool → ℕ → Reply
create_dm has_params size =
    expect has_params (runs post (some size) none object (codes "/users/@me/channels") [])

pub record CreateGroupDm : Type 0 where
  pub access_tokens : Bool
  pub nicks : Bool

abbrev pub create_group_dm : Option CreateGroupDm → ℕ → Reply
create_group_dm params size = given params (λ p.
    expect p.access_tokens
      (expect p.nicks (runs post (some size) none object (codes "/users/@me/channels") [])))

abbrev pub get_user_connections : Reply
get_user_connections = runs get none none list (codes "/users/@me/connections") []
