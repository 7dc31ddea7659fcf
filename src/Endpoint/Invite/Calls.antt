-- ===== src/Endpoint/Invite/Calls.antt =====
-- invite.c: that a request that one of the functions runs is sound.
use wineberry_discord.Prelude.{ℕ, Bool, Option}
use wineberry_discord.Prelude.Texts.{Text}
use wineberry_discord.Endpoint.{Reply}
use wineberry_discord.Endpoint.Sound.{IsSound, sound_rules}
use wineberry_discord.Endpoint.Invite

pub data InviteCall : Type 0 where
  get_invite : Option Text → Bool → ℕ → InviteCall
  delete_invite : Option Text → Option (Option Text) → InviteCall

abbrev pub reply : InviteCall → Reply
reply (get_invite invite_code has_params size) = Invite.get_invite invite_code has_params size
reply (delete_invite invite_code params) = Invite.delete_invite invite_code params

pub reply-IsSound : (c : InviteCall) → IsSound (reply c)
unfolding wineberry_discord.Rest.Key.consume
reply-IsSound (delete_invite invite_code params) = search sound_rules depth 12
reply-IsSound _ = search sound_rules depth 12
