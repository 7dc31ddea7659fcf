-- ===== src/Endpoint/User/Calls.antt =====
-- user.c: that a request that one of the functions runs is sound.
use wineberry_discord.Prelude.{ℕ, Bool, Option}
use wineberry_discord.Endpoint.{Reply}
use wineberry_discord.Endpoint.Sound.{IsSound, sound_rules}
use wineberry_discord.Endpoint.User
use wineberry_discord.Endpoint.User.{CreateGroupDm}

pub data UserCall : Type 0 where
  get_current_user : UserCall
  get_user : ℕ → UserCall
  modify_current_user : Bool → ℕ → UserCall
  get_current_user_guilds : UserCall
  leave_guild : ℕ → UserCall
  create_dm : Bool → ℕ → UserCall
  create_group_dm : Option CreateGroupDm → ℕ → UserCall
  get_user_connections : UserCall

abbrev pub reply : UserCall → Reply
reply get_current_user = User.get_current_user
reply (get_user user_id) = User.get_user user_id
reply (modify_current_user has_params size) = User.modify_current_user has_params size
reply get_current_user_guilds = User.get_current_user_guilds
reply (leave_guild guild_id) = User.leave_guild guild_id
reply (create_dm has_params size) = User.create_dm has_params size
reply (create_group_dm params size) = User.create_group_dm params size
reply get_user_connections = User.get_user_connections

pub reply-IsSound : (c : UserCall) → IsSound (reply c)
unfolding wineberry_discord.Rest.Key.consume
reply-IsSound get_current_user = search sound_rules depth 12
reply-IsSound _ = search sound_rules depth 12
