-- ===== src/Endpoint/Member/Calls.antt =====
-- guild.c: that a request that one of the functions runs is sound.
use wineberry_discord.Prelude.{ℕ, ◌≡◌, Bool, true, Option}
use wineberry_discord.Prelude.Texts.{Text}
use wineberry_discord.Endpoint.{Reply, is_set}
use wineberry_discord.Endpoint.Sound.{IsSound, sound_rules}
use wineberry_discord.Endpoint.Member
use wineberry_discord.Endpoint.Member.{
  AddGuildMember, ModifyCurrentMember, ModifyCurrentUserNick, CreateGuildBan, is_week,
}

pub data MemberCall : Type 0 where
  get_guild_member : ℕ → ℕ → MemberCall
  add_guild_member : ℕ → ℕ → Option AddGuildMember → ℕ → MemberCall
  modify_guild_member : ℕ → ℕ → Option (Option Text) → ℕ → MemberCall
  modify_current_member : ℕ → Option ModifyCurrentMember → ℕ → MemberCall
  modify_current_user_nick : ℕ → Option ModifyCurrentUserNick → ℕ → MemberCall
  add_guild_member_role : ℕ → ℕ → ℕ → Option (Option Text) → MemberCall
  remove_guild_member_role : ℕ → ℕ → ℕ → Option (Option Text) → MemberCall
  remove_guild_member : ℕ → ℕ → Option (Option Text) → MemberCall
  get_guild_bans : ℕ → MemberCall
  get_guild_ban : ℕ → ℕ → MemberCall
  create_guild_ban : ℕ → ℕ → Option CreateGuildBan → ℕ → MemberCall
  remove_guild_ban : ℕ → ℕ → Option (Option Text) → MemberCall
  get_guild_roles : ℕ → MemberCall
  create_guild_role : ℕ → Option (Option Text) → ℕ → MemberCall
  modify_guild_role_positions : ℕ → Bool → ℕ → MemberCall
  modify_guild_role : ℕ → ℕ → Option (Option Text) → ℕ → MemberCall
  delete_guild_role : ℕ → ℕ → Option (Option Text) → MemberCall
  modify_current_user_voice_state : ℕ → ℕ → MemberCall
  modify_user_voice_state : ℕ → ℕ → ℕ → MemberCall

abbrev pub reply : MemberCall → Reply
reply (get_guild_member guild_id user_id) = Member.get_guild_member guild_id user_id
reply (add_guild_member guild_id user_id params size) =
    Member.add_guild_member guild_id user_id params size
reply (modify_guild_member guild_id user_id params size) =
    Member.modify_guild_member guild_id user_id params size
reply (modify_current_member guild_id params size) =
    Member.modify_current_member guild_id params size
reply (modify_current_user_nick guild_id params size) =
    Member.modify_current_user_nick guild_id params size
reply (add_guild_member_role guild_id user_id role_id params) =
    Member.add_guild_member_role guild_id user_id role_id params
reply (remove_guild_member_role guild_id user_id role_id params) =
    Member.remove_guild_member_role guild_id user_id role_id params
reply (remove_guild_member guild_id user_id params) =
    Member.remove_guild_member guild_id user_id params
reply (get_guild_bans guild_id) = Member.get_guild_bans guild_id
reply (get_guild_ban guild_id user_id) = Member.get_guild_ban guild_id user_id
reply (create_guild_ban guild_id user_id params size) =
    Member.create_guild_ban guild_id user_id params size
reply (remove_guild_ban guild_id user_id params) = Member.remove_guild_ban guild_id user_id params
reply (get_guild_roles guild_id) = Member.get_guild_roles guild_id
reply (create_guild_role guild_id params size) = Member.create_guild_role guild_id params size
reply (modify_guild_role_positions guild_id has_params size) =
    Member.modify_guild_role_positions guild_id has_params size
reply (modify_guild_role guild_id role_id params size) =
    Member.modify_guild_role guild_id role_id params size
reply (delete_guild_role guild_id role_id params) = Member.delete_guild_role guild_id role_id params
reply (modify_current_user_voice_state guild_id size) =
    Member.modify_current_user_voice_state guild_id size
reply (modify_user_voice_state guild_id user_id size) =
    Member.modify_user_voice_state guild_id user_id size

-- What the functions do not check themselves.
abbrev pub is_checked : MemberCall → Bool
is_checked (modify_user_voice_state guild_id user_id size) = is_set user_id
is_checked c = true

pub reply-IsSound : (c : MemberCall) → is_checked c ≡ true → IsSound (reply c)
unfolding wineberry_discord.Rest.Key.consume
reply-IsSound (get_guild_bans guild_id) e = search sound_rules depth 12
reply-IsSound _ e = search sound_rules depth 12
