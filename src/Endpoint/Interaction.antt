-- ===== src/Endpoint/Interaction.antt =====
-- interaction.c: the functions that begin a request.
pub mod Calls
use wineberry_discord.Prelude.{ℕ, [], ◌∷◌, Option, none, ◌/◌}
use wineberry_discord.Prelude.Texts.{Text, codes}
use wineberry_discord.Rest.Key.{get, delete, id, text}
use wineberry_discord.Endpoint.{object, blank, Reply, runs, expect, is_set, not_empty}

abbrev pub get_original_interaction_response : ℕ → Option Text → Reply
get_original_interaction_response application_id interaction_token =
    expect (is_set application_id) (
      expect (not_empty interaction_token) (
        runs get none none object (codes "/webhooks/%lu/%s/messages/@original")
          (id application_id ∷ text interaction_token ∷ [])))

abbrev pub delete_original_interaction_response : ℕ → Option Text → Reply
delete_original_interaction_response application_id interaction_token =
    expect (is_set application_id) (
      expect (not_empty interaction_token) (
        runs delete none none blank (codes "/webhooks/%lu/%s/messages/@original")
          (id application_id ∷ text interaction_token ∷ [])))

abbrev pub get_followup_message : ℕ → Option Text → ℕ → Reply
get_followup_message application_id interaction_token message_id = expect (is_set application_id) (
    expect (not_empty interaction_token) (
      expect (is_set message_id) (
        runs get none none object (codes "/webhooks/%lu/%s/%lu")
          (id application_id ∷ text interaction_token ∷ id message_id ∷ []))))

abbrev pub delete_followup_message : ℕ → Option Text → ℕ → Reply
delete_followup_message application_id interaction_token message_id =
    expect (is_set application_id) (
      expect (not_empty interaction_token) (
        expect (is_set message_id) (
          runs delete none none blank (codes "/webhooks/%lu/%s/messages/%lu")
            (id application_id ∷ text interaction_token ∷ id message_id ∷ []))))
