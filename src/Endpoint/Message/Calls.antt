-- ===== src/Endpoint/Message/Calls.antt =====
-- channel.c: that a request that one of the functions runs is sound.
use wineberry_discord.Prelude.{ℕ, Bool, Option}
use wineberry_discord.Prelude.Texts.{Text}
use wineberry_discord.Endpoint.{Reply}
use wineberry_discord.Endpoint.Sound.{IsSound, sound_rules}
use wineberry_discord.Endpoint.Message

pub data MessageCall : Type 0 where
  get_channel_message : ℕ → ℕ → MessageCall
  crosspost_message : ℕ → ℕ → MessageCall
  delete_all_reactions : ℕ → ℕ → MessageCall
  edit_message : ℕ → ℕ → Bool → ℕ → MessageCall
  delete_message : ℕ → ℕ → Option (Option Text) → MessageCall
  trigger_typing_indicator : ℕ → MessageCall
  get_pinned_messages : ℕ → MessageCall
  pin_message : ℕ → ℕ → Option (Option Text) → MessageCall
  unpin_message : ℕ → ℕ → Option (Option Text) → MessageCall
  start_thread_with_message : ℕ → ℕ → Option (Option Text) → ℕ → MessageCall
  start_thread_without_message : ℕ → Option (Option Text) → ℕ → MessageCall

abbrev pub reply : MessageCall → Reply
reply (get_channel_message channel_id message_id) =
    Message.get_channel_message channel_id message_id
reply (crosspost_message channel_id message_id) = Message.crosspost_message channel_id message_id
reply (delete_all_reactions channel_id message_id) =
    Message.delete_all_reactions channel_id message_id
reply (edit_message channel_id message_id has_params size) =
    Message.edit_message channel_id message_id has_params size
reply (delete_message channel_id message_id params) =
    Message.delete_message channel_id message_id params
reply (trigger_typing_indicator channel_id) = Message.trigger_typing_indicator channel_id
reply (get_pinned_messages channel_id) = Message.get_pinned_messages channel_id
reply (pin_message channel_id message_id params) = Message.pin_message channel_id message_id params
reply (unpin_message channel_id message_id params) =
    Message.unpin_message channel_id message_id params
reply (start_thread_with_message channel_id message_id params size) =
    Message.start_thread_with_message channel_id message_id params size
reply (start_thread_without_message channel_id params size) =
    Message.start_thread_without_message channel_id params size

pub reply-IsSound : (c : MessageCall) → IsSound (reply c)
unfolding wineberry_discord.Rest.Key.consume
reply-IsSound (trigger_typing_indicator channel_id) = search sound_rules depth 12
reply-IsSound _ = search sound_rules depth 12
