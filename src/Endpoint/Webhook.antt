-- ===== src/Endpoint/Webhook.antt =====
-- webhook.c: the functions that begin a request.
pub mod Calls
use wineberry_discord.Prelude.{ℕ, [], ◌∷◌, Option, none, some, ◌/◌}
use wineberry_discord.Prelude.Texts.{Text, codes}
use wineberry_discord.Rest.Key.{get, post, patch, delete, id, text}
use wineberry_discord.Endpoint.{
  object, list, blank, Reply, runs, expect, given, is_set, not_empty, reason_of,
}

pub record CreateWebhook : Type 0 where
  pub name : Option Text
  pub reason : Option Text

abbrev pub create_webhook : ℕ → Option CreateWebhook → ℕ → Reply
create_webhook channel_id params size = expect (is_set channel_id) (
    given params (λ p. expect (not_empty p.name) (
      runs post (some size) p.reason object (codes "/channels/%lu/webhooks") (id channel_id ∷ []))))

abbrev pub get_channel_webhooks : ℕ → Reply
get_channel_webhooks channel_id =
    expect (is_set channel_id)
      (runs get none none list (codes "/channels/%lu/webhooks") (id channel_id ∷ []))

abbrev pub get_guild_webhooks : ℕ → Reply
get_guild_webhooks guild_id =
    expect (is_set guild_id)
      (runs get none none list (codes "/guilds/%lu/webhooks") (id guild_id ∷ []))

abbrev pub get_webhook : ℕ → Reply
get_webhook webhook_id =
    expect (is_set webhook_id)
      (runs get none none object (codes "/webhooks/%lu") (id webhook_id ∷ []))

abbrev pub get_webhook_with_token : ℕ → Option Text → Reply
get_webhook_with_token webhook_id webhook_token = expect (is_set webhook_id) (
    expect (not_empty webhook_token) (
      runs get none none object (codes "/webhooks/%lu/%s")
        (id webhook_id ∷ text webhook_token ∷ [])))

abbrev pub modify_webhook : ℕ → Option (Option Text) → ℕ → Reply
modify_webhook webhook_id params size =
    expect (is_set webhook_id) (
      runs patch (some size) (reason_of params) object (codes "/webhooks/%lu") (id webhook_id ∷ []))

abbrev pub modify_webhook_with_token : ℕ → Option Text → ℕ → Reply
modify_webhook_with_token webhook_id webhook_token size = expect (is_set webhook_id) (
    expect (not_empty webhook_token) (
      runs patch (some size) none object (codes "/webhooks/%lu/%s")
        (id webhook_id ∷ text webhook_token ∷ [])))

abbrev pub delete_webhook : ℕ → Option (Option Text) → Reply
delete_webhook webhook_id params =
    expect (is_set webhook_id)
      (runs delete none (reason_of params) blank (codes "/webhooks/%lu") (id webhook_id ∷ []))

abbrev pub delete_webhook_with_token : ℕ → Option Text → Reply
delete_webhook_with_token webhook_id webhook_token = expect (is_set webhook_id) (
    expect (not_empty webhook_token) (
      runs delete none none blank (codes "/webhooks/%lu/%s")
        (id webhook_id ∷ text webhook_token ∷ [])))

abbrev pub get_webhook_message : ℕ → Option Text → ℕ → Reply
get_webhook_message webhook_id webhook_token message_id = expect (is_set webhook_id) (
    expect (not_empty webhook_token) (
      expect (is_set message_id) (
        runs get none none object (codes "/webhooks/%lu/%s/%lu")
          (id webhook_id ∷ text webhook_token ∷ id message_id ∷ []))))

abbrev pub delete_webhook_message : ℕ → Option Text → ℕ → Reply
delete_webhook_message webhook_id webhook_token message_id = expect (is_set webhook_id) (
    expect (not_empty webhook_token) (
      expect (is_set message_id) (
        runs delete none none blank (codes "/webhooks/%lu/%s/messages/%lu")
          (id webhook_id ∷ text webhook_token ∷ id message_id ∷ []))))
