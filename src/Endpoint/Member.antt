-- ===== src/Endpoint/Member.antt =====
-- guild.c: the functions that begin a request about a member, a ban or a role.
pub mod Calls
use wineberry_discord.Prelude.{ℕ, Bool, false, [], ◌∷◌, Option, none, some, leb, ◌/◌}
use wineberry_discord.Prelude.Int.{ℤ, pos, negsuc}
use wineberry_discord.Prelude.Texts.{Text, codes}
use wineberry_discord.Rest.Key.{get, put, post, patch, delete, id}
use wineberry_discord.Endpoint.{object, list, blank, Reply, runs, expect, given, is_set, reason_of}

abbrev pub get_guild_member : ℕ → ℕ → Reply
get_guild_member guild_id user_id = expect (is_set guild_id) (
    expect (is_set user_id)
      (runs get none none object (codes "/guilds/%lu/members/%lu") (id guild_id ∷ id user_id ∷ [])))

pub record AddGuildMember : Type 0 where
  pub access_token : Bool

abbrev pub add_guild_member : ℕ → ℕ → Option AddGuildMember → ℕ → Reply
add_guild_member guild_id user_id params size = expect (is_set guild_id) (
    expect (is_set user_id) (
      given params (λ p. expect p.access_token (
        runs put (some size) none object (codes "/guilds/%lu/members/%lu")
          (id guild_id ∷ id user_id ∷ [])))))

abbrev pub modify_guild_member : ℕ → ℕ → Option (Option Text) → ℕ → Reply
modify_guild_member guild_id user_id params size = expect (is_set guild_id) (
    expect (is_set user_id) (
      given params (λ reason.
        runs patch (some size) reason object (codes "/guilds/%lu/members/%lu")
          (id guild_id ∷ id user_id ∷ []))))

pub record ModifyCurrentMember : Type 0 where
  pub nick : Bool
  pub reason : Option Text

abbrev pub modify_current_member : ℕ → Option ModifyCurrentMember → ℕ → Reply
modify_current_member guild_id params size = expect (is_set guild_id) (
    given params (λ p. expect p.nick (
      runs patch (some size) p.reason object (codes "/guilds/%lu/members/@me") (id guild_id ∷ []))))

pub record ModifyCurrentUserNick : Type 0 where
  pub nick : Bool
  pub reason : Option Text

abbrev pub modify_current_user_nick : ℕ → Option ModifyCurrentUserNick → ℕ → Reply
modify_current_user_nick guild_id params size = expect (is_set guild_id) (
    given params (λ p. expect p.nick (
      runs patch (some size) p.reason object (codes "/guilds/%lu/members/@me/nick")
        (id guild_id ∷ []))))

abbrev pub add_guild_member_role : ℕ → ℕ → ℕ → Option (Option Text) → Reply
add_guild_member_role guild_id user_id role_id params = expect (is_set guild_id) (
    expect (is_set user_id) (
      expect (is_set role_id) (
        runs put none (reason_of params) blank (codes "/guilds/%lu/members/%lu/roles/%lu")
          (id guild_id ∷ id user_id ∷ id role_id ∷ []))))

abbrev pub remove_guild_member_role : ℕ → ℕ → ℕ → Option (Option Text) → Reply
remove_guild_member_role guild_id user_id role_id params = expect (is_set guild_id) (
    expect (is_set user_id) (
      expect (is_set role_id) (
        runs delete none (reason_of params) blank (codes "/guilds/%lu/members/%lu/roles/%lu")
          (id guild_id ∷ id user_id ∷ id role_id ∷ []))))

abbrev pub remove_guild_member : ℕ → ℕ → Option (Option Text) → Reply
remove_guild_member guild_id user_id params = expect (is_set guild_id) (
    expect (is_set user_id) (
      runs delete none (reason_of params) blank (codes "/guilds/%lu/members/%lu")
        (id guild_id ∷ id user_id ∷ [])))

abbrev pub get_guild_bans : ℕ → Reply
get_guild_bans guild_id =
    expect (is_set guild_id) (runs get none none list (codes "/guilds/%lu/bans") (id guild_id ∷ []))

abbrev pub get_guild_ban : ℕ → ℕ → Reply
get_guild_ban guild_id user_id = expect (is_set guild_id) (
    expect (is_set user_id)
      (runs get none none object (codes "/guilds/%lu/bans/%lu") (id guild_id ∷ id user_id ∷ [])))

pub record CreateGuildBan : Type 0 where
  pub delete_message_days : ℤ
  pub reason : Option Text

-- From 0 to 7 days.
abbrev pub is_week : ℤ → Bool
is_week (pos n) = leb n 7
is_week (negsuc n) = false

abbrev pub create_guild_ban : ℕ → ℕ → Option CreateGuildBan → ℕ → Reply
create_guild_ban guild_id user_id params size = expect (is_set guild_id) (
    expect (is_set user_id) (
      given params (λ p. expect (is_week p.delete_message_days) (
        runs put (some size) p.reason blank (codes "/guilds/%lu/bans/%lu")
          (id guild_id ∷ id user_id ∷ [])))))

abbrev pub remove_guild_ban : ℕ → ℕ → Option (Option Text) → Reply
remove_guild_ban guild_id user_id params = expect (is_set guild_id) (
    expect (is_set user_id) (
      runs delete none (reason_of params) blank (codes "/guilds/%lu/bans/%lu")
        (id guild_id ∷ id user_id ∷ [])))

abbrev pub get_guild_roles : ℕ → Reply
get_guild_roles guild_id =
    expect (is_set guild_id)
      (runs get none none list (codes "/guilds/%lu/roles") (id guild_id ∷ []))

abbrev pub create_guild_role : ℕ → Option (Option Text) → ℕ → Reply
create_guild_role guild_id params size =
    expect (is_set guild_id) (
      runs post (some size) (reason_of params) object (codes "/guilds/%lu/roles")
        (id guild_id ∷ []))

abbrev pub modify_guild_role_positions : ℕ → Bool → ℕ → Reply
modify_guild_role_positions guild_id has_params size = expect (is_set guild_id) (
    expect has_params
      (runs patch (some size) none list (codes "/guilds/%lu/roles") (id guild_id ∷ [])))

abbrev pub modify_guild_role : ℕ → ℕ → Option (Option Text) → ℕ → Reply
modify_guild_role guild_id role_id params size = expect (is_set guild_id) (
    expect (is_set role_id) (
      runs patch (some size) (reason_of params) object (codes "/guilds/%lu/roles/%lu")
        (id guild_id ∷ id role_id ∷ [])))

abbrev pub delete_guild_role : ℕ → ℕ → Option (Option Text) → Reply
delete_guild_role guild_id role_id params = expect (is_set guild_id) (
    expect (is_set role_id) (
      runs delete none (reason_of params) blank (codes "/guilds/%lu/roles/%lu")
        (id guild_id ∷ id role_id ∷ [])))

abbrev pub modify_current_user_voice_state : ℕ → ℕ → Reply
modify_current_user_voice_state guild_id size =
    expect (is_set guild_id)
      (runs patch (some size) none blank (codes "/guilds/%lu/voice-states/@me") (id guild_id ∷ []))

abbrev pub modify_user_voice_state : ℕ → ℕ → ℕ → Reply
modify_user_voice_state guild_id user_id size = expect (is_set guild_id) (
    runs patch (some size) none blank (codes "/guilds/%lu/voice-states/%lu")
      (id guild_id ∷ id user_id ∷ []))
