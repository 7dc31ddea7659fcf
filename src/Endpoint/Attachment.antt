-- ===== src/Endpoint/Attachment.antt =====
-- channel.c, interaction.c and webhook.c: the functions whose message may have attachments.
pub mod Calls
use wineberry_discord.Prelude.{ℕ, Bool, [], ◌∷◌, Option, none, some, ◌/◌, if◌then◌else◌}
use wineberry_discord.Prelude.Texts.{Text, codes}
use wineberry_discord.Rest.Key.{Method, mimepost, post, patch, id, text}
use wineberry_discord.Endpoint.{object, Reply, runs, expect, given, is_set, not_empty}

-- A message with attachments goes out as a multipart POST; `attached` is whether there are any.
abbrev pub method_of : Bool → Method → Method
method_of attached m = if attached then mimepost else m

-- `params->data && params->data->attachments`
abbrev pub method_of_data : Option Bool → Method
method_of_data none = post
method_of_data (some attached) = method_of attached post

abbrev pub create_message : ℕ → Option Bool → ℕ → Reply
create_message channel_id params size = expect (is_set channel_id) (
    given params (λ attached.
      runs (method_of attached post) (some size) none object (codes "/channels/%lu/messages")
        (id channel_id ∷ [])))

abbrev pub create_interaction_response : ℕ → Option Text → Option (Option Bool) → ℕ → Reply
create_interaction_response interaction_id interaction_token params size =
    expect (is_set interaction_id) (
      expect (not_empty interaction_token) (
        given params (λ message_data.
          runs (method_of_data message_data) (some size) none object
            (codes "/interactions/%lu/%s/callback")
            (id interaction_id ∷ text interaction_token ∷ []))))

abbrev pub edit_original_interaction_response : ℕ → Option Text → Option Bool → ℕ → Reply
edit_original_interaction_response application_id interaction_token params size =
    expect (is_set application_id) (
      expect (not_empty interaction_token) (
        given params (λ attached.
          runs (method_of attached patch) (some size) none object
            (codes "/webhooks/%lu/%s/messages/@original")
            (id application_id ∷ text interaction_token ∷ []))))

abbrev pub edit_followup_message : ℕ → Option Text → ℕ → Option Bool → ℕ → Reply
edit_followup_message application_id interaction_token message_id params size =
    expect (is_set application_id) (
      expect (not_empty interaction_token) (
        expect (is_set message_id) (
          given params (λ attached.
            runs (method_of attached patch) (some size) none object
              (codes "/webhooks/%lu/%s/messages/%lu")
              (id application_id ∷ text interaction_token ∷ id message_id ∷ [])))))

abbrev pub edit_webhook_message : ℕ → Option Text → ℕ → Option Bool → ℕ → Reply
edit_webhook_message webhook_id webhook_token message_id params size = expect (is_set webhook_id) (
    expect (not_empty webhook_token) (
      expect (is_set message_id) (
        given params (λ attached.
          runs (method_of attached patch) (some size) none object
            (codes "/webhooks/%lu/%s/messages/%lu")
            (id webhook_id ∷ text webhook_token ∷ id message_id ∷ [])))))
