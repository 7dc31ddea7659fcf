-- ===== src/Endpoint/Interaction/Calls.antt =====
-- interaction.c: that a request that one of the functions runs is sound.
use wineberry_discord.Prelude.{ℕ, Option}
use wineberry_discord.Prelude.Texts.{Text}
use wineberry_discord.Endpoint.{Reply}
use wineberry_discord.Endpoint.Sound.{IsSound, sound_rules}
use wineberry_discord.Endpoint.Interaction

pub data InteractionCall : Type 0 where
  get_original_interaction_response : ℕ → Option Text → InteractionCall
  delete_original_interaction_response : ℕ → Option Text → InteractionCall
  get_followup_message : ℕ → Option Text → ℕ → InteractionCall
  delete_followup_message : ℕ → Option Text → ℕ → InteractionCall

abbrev pub reply : InteractionCall → Reply
reply (get_original_interaction_response application_id interaction_token) =
    Interaction.get_original_interaction_response application_id interaction_token
reply (delete_original_interaction_response application_id interaction_token) =
    Interaction.delete_original_interaction_response application_id interaction_token
reply (get_followup_message application_id interaction_token message_id) =
    Interaction.get_followup_message application_id interaction_token message_id
reply (delete_followup_message application_id interaction_token message_id) =
    Interaction.delete_followup_message application_id interaction_token message_id

pub reply-IsSound : (c : InteractionCall) → IsSound (reply c)
unfolding wineberry_discord.Rest.Key.consume
reply-IsSound (get_original_interaction_response application_id interaction_token) =
    search sound_rules depth 12
reply-IsSound _ = search sound_rules depth 12
