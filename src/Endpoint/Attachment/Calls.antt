-- ===== src/Endpoint/Attachment/Calls.antt =====
-- channel.c, interaction.c and webhook.c: that a request that one of the functions runs is sound.
use wineberry_discord.Prelude.{ℕ, Bool, Option}
use wineberry_discord.Prelude.Texts.{Text}
use wineberry_discord.Endpoint.{Reply}
use wineberry_discord.Endpoint.Sound.{IsSound, sound_rules}
use wineberry_discord.Endpoint.Attachment

pub data AttachmentCall : Type 0 where
  create_message : ℕ → Option Bool → ℕ → AttachmentCall
  create_interaction_response : ℕ → Option Text → Option (Option Bool) → ℕ → AttachmentCall
  edit_original_interaction_response : ℕ → Option Text → Option Bool → ℕ → AttachmentCall
  edit_followup_message : ℕ → Option Text → ℕ → Option Bool → ℕ → AttachmentCall
  edit_webhook_message : ℕ → Option Text → ℕ → Option Bool → ℕ → AttachmentCall

abbrev pub reply : AttachmentCall → Reply
reply (create_message channel_id params size) = Attachment.create_message channel_id params size
reply (create_interaction_response interaction_id interaction_token params size) =
    Attachment.create_interaction_response interaction_id interaction_token params size
reply (edit_original_interaction_response application_id interaction_token params size) =
    Attachment.edit_original_interaction_response application_id interaction_token params size
reply (edit_followup_message application_id interaction_token message_id params size) =
    Attachment.edit_followup_message application_id interaction_token message_id params size
reply (edit_webhook_message webhook_id webhook_token message_id params size) =
    Attachment.edit_webhook_message webhook_id webhook_token message_id params size

pub reply-IsSound : (c : AttachmentCall) → IsSound (reply c)
unfolding wineberry_discord.Rest.Key.consume
reply-IsSound (create_message channel_id params size) = search sound_rules depth 12
reply-IsSound _ = search sound_rules depth 12
