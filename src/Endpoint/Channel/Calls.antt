-- ===== src/Endpoint/Channel/Calls.antt =====
-- channel.c: that a request that one of the functions runs is sound.
use wineberry_discord.Prelude.{ℕ, Bool, Option}
use wineberry_discord.Prelude.Texts.{Text}
use wineberry_discord.Endpoint.{Reply}
use wineberry_discord.Endpoint.Sound.{IsSound, sound_rules}
use wineberry_discord.Endpoint.Channel
use wineberry_discord.Endpoint.Channel.{FollowNewsChannel}

pub data ChannelCall : Type 0 where
  get_channel : ℕ → ChannelCall
  modify_channel : ℕ → Option (Option Text) → ℕ → ChannelCall
  delete_channel : ℕ → Option (Option Text) → ChannelCall
  edit_channel_permissions : ℕ → ℕ → Option (Option Text) → ℕ → ChannelCall
  get_channel_invites : ℕ → ChannelCall
  create_channel_invite : ℕ → Option (Option Text) → ℕ → ChannelCall
  delete_channel_permission : ℕ → ℕ → Option (Option Text) → ChannelCall
  follow_news_channel : ℕ → Option FollowNewsChannel → ℕ → ChannelCall
  group_dm_add_recipient : ℕ → ℕ → Bool → ℕ → ChannelCall
  group_dm_remove_recipient : ℕ → ℕ → ChannelCall
  join_thread : ℕ → ChannelCall
  add_thread_member : ℕ → ℕ → ChannelCall
  leave_thread : ℕ → ChannelCall
  remove_thread_member : ℕ → ℕ → ChannelCall
  list_thread_members : ℕ → ChannelCall
  list_active_threads : ℕ → ChannelCall

abbrev pub reply : ChannelCall → Reply
reply (get_channel channel_id) = Channel.get_channel channel_id
reply (modify_channel channel_id params size) = Channel.modify_channel channel_id params size
reply (delete_channel channel_id params) = Channel.delete_channel channel_id params
reply (edit_channel_permissions channel_id overwrite_id params size) =
    Channel.edit_channel_permissions channel_id overwrite_id params size
reply (get_channel_invites channel_id) = Channel.get_channel_invites channel_id
reply (create_channel_invite channel_id params size) =
    Channel.create_channel_invite channel_id params size
reply (delete_channel_permission channel_id overwrite_id params) =
    Channel.delete_channel_permission channel_id overwrite_id params
reply (follow_news_channel channel_id params size) =
    Channel.follow_news_channel channel_id params size
reply (group_dm_add_recipient channel_id user_id has_params size) =
    Channel.group_dm_add_recipient channel_id user_id has_params size
reply (group_dm_remove_recipient channel_id user_id) =
    Channel.group_dm_remove_recipient channel_id user_id
reply (join_thread channel_id) = Channel.join_thread channel_id
reply (add_thread_member channel_id user_id) = Channel.add_thread_member channel_id user_id
reply (leave_thread channel_id) = Channel.leave_thread channel_id
reply (remove_thread_member channel_id user_id) = Channel.remove_thread_member channel_id user_id
reply (list_thread_members channel_id) = Channel.list_thread_members channel_id
reply (list_active_threads channel_id) = Channel.list_active_threads channel_id

pub reply-IsSound : (c : ChannelCall) → IsSound (reply c)
unfolding wineberry_discord.Rest.Key.consume
reply-IsSound (get_channel channel_id) = search sound_rules depth 12
reply-IsSound _ = search sound_rules depth 12
