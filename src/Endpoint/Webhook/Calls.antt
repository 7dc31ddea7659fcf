-- ===== src/Endpoint/Webhook/Calls.antt =====
-- webhook.c: that a request that one of the functions runs is sound.
use wineberry_discord.Prelude.{ℕ, Option}
use wineberry_discord.Prelude.Texts.{Text}
use wineberry_discord.Endpoint.{Reply}
use wineberry_discord.Endpoint.Sound.{IsSound, sound_rules}
use wineberry_discord.Endpoint.Webhook
use wineberry_discord.Endpoint.Webhook.{CreateWebhook}

pub data WebhookCall : Type 0 where
  create_webhook : ℕ → Option CreateWebhook → ℕ → WebhookCall
  get_channel_webhooks : ℕ → WebhookCall
  get_guild_webhooks : ℕ → WebhookCall
  get_webhook : ℕ → WebhookCall
  get_webhook_with_token : ℕ → Option Text → WebhookCall
  modify_webhook : ℕ → Option (Option Text) → ℕ → WebhookCall
  modify_webhook_with_token : ℕ → Option Text → ℕ → WebhookCall
  delete_webhook : ℕ → Option (Option Text) → WebhookCall
  delete_webhook_with_token : ℕ → Option Text → WebhookCall
  get_webhook_message : ℕ → Option Text → ℕ → WebhookCall
  delete_webhook_message : ℕ → Option Text → ℕ → WebhookCall

abbrev pub reply : WebhookCall → Reply
reply (create_webhook channel_id params size) = Webhook.create_webhook channel_id params size
reply (get_channel_webhooks channel_id) = Webhook.get_channel_webhooks channel_id
reply (get_guild_webhooks guild_id) = Webhook.get_guild_webhooks guild_id
reply (get_webhook webhook_id) = Webhook.get_webhook webhook_id
reply (get_webhook_with_token webhook_id webhook_token) =
    Webhook.get_webhook_with_token webhook_id webhook_token
reply (modify_webhook webhook_id params size) = Webhook.modify_webhook webhook_id params size
reply (modify_webhook_with_token webhook_id webhook_token size) =
    Webhook.modify_webhook_with_token webhook_id webhook_token size
reply (delete_webhook webhook_id params) = Webhook.delete_webhook webhook_id params
reply (delete_webhook_with_token webhook_id webhook_token) =
    Webhook.delete_webhook_with_token webhook_id webhook_token
reply (get_webhook_message webhook_id webhook_token message_id) =
    Webhook.get_webhook_message webhook_id webhook_token message_id
reply (delete_webhook_message webhook_id webhook_token message_id) =
    Webhook.delete_webhook_message webhook_id webhook_token message_id

pub reply-IsSound : (c : WebhookCall) → IsSound (reply c)
unfolding wineberry_discord.Rest.Key.consume
reply-IsSound (get_guild_webhooks guild_id) = search sound_rules depth 12
reply-IsSound _ = search sound_rules depth 12
