-- ===== src/Endpoint/Message.antt =====
-- channel.c: the functions that begin a request about a message.
pub mod Calls
use wineberry_discord.Prelude.{ℕ, Bool, [], ◌∷◌, Option, none, some, ◌/◌}
use wineberry_discord.Prelude.Texts.{Text, codes}
use wineberry_discord.Rest.Key.{get, put, post, patch, delete, id}
use wineberry_discord.Endpoint.{object, list, blank, Reply, runs, expect, given, is_set, reason_of}

abbrev pub get_channel_message : ℕ → ℕ → Reply
get_channel_message channel_id message_id = expect (is_set channel_id) (
    expect (is_set message_id) (
      runs get none none object (codes "/channels/%lu/messages/%lu")
        (id channel_id ∷ id message_id ∷ [])))

abbrev pub crosspost_message : ℕ → ℕ → Reply
crosspost_message channel_id message_id = expect (is_set channel_id) (
    expect (is_set message_id) (
      runs post none none object (codes "/channels/%lu/messages/%lu/crosspost")
        (id channel_id ∷ id message_id ∷ [])))

abbrev pub delete_all_reactions : ℕ → ℕ → Reply
delete_all_reactions channel_id message_id = expect (is_set channel_id) (
    expect (is_set message_id) (
      runs delete none none blank (codes "/channels/%lu/messages/%lu/reactions")
        (id channel_id ∷ id message_id ∷ [])))

abbrev pub edit_message : ℕ → ℕ → Bool → ℕ → Reply
edit_message channel_id message_id has_params size = expect (is_set channel_id) (
    expect (is_set message_id) (
      expect has_params (
        runs patch (some size) none object (codes "/channels/%lu/messages/%lu")
          (id channel_id ∷ id message_id ∷ []))))

abbrev pub delete_message : ℕ → ℕ → Option (Option Text) → Reply
delete_message channel_id message_id params = expect (is_set channel_id) (
    expect (is_set message_id) (
      runs delete none (reason_of params) blank (codes "/channels/%lu/messages/%lu")
        (id channel_id ∷ id message_id ∷ [])))

abbrev pub trigger_typing_indicator : ℕ → Reply
trigger_typing_indicator channel_id =
    expect (is_set channel_id)
      (runs post none none blank (codes "/channels/%lu/typing") (id channel_id ∷ []))

abbrev pub get_pinned_messages : ℕ → Reply
get_pinned_messages channel_id =
    expect (is_set channel_id)
      (runs get none none list (codes "/channels/%lu/pins") (id channel_id ∷ []))

abbrev pub pin_message : ℕ → ℕ → Option (Option Text) → Reply
pin_message channel_id message_id params = expect (is_set channel_id) (
    expect (is_set message_id) (
      runs put none (reason_of params) blank (codes "/channels/%lu/pins/%lu")
        (id channel_id ∷ id message_id ∷ [])))

abbrev pub unpin_message : ℕ → ℕ → Option (Option Text) → Reply
unpin_message channel_id message_id params = expect (is_set channel_id) (
    expect (is_set message_id) (
      runs delete none (reason_of params) blank (codes "/channels/%lu/pins/%lu")
        (id channel_id ∷ id message_id ∷ [])))

abbrev pub start_thread_with_message : ℕ → ℕ → Option (Option Text) → ℕ → Reply
start_thread_with_message channel_id message_id params size = expect (is_set channel_id) (
    expect (is_set message_id) (
      given params (λ reason.
        runs post (some size) reason object (codes "/channels/%lu/messages/%lu/threads")
          (id channel_id ∷ id message_id ∷ []))))

abbrev pub start_thread_without_message : ℕ → Option (Option Text) → ℕ → Reply
start_thread_without_message channel_id params size = expect (is_set channel_id) (
    given params (λ reason.
      runs post (some size) reason object (codes "/channels/%lu/threads") (id channel_id ∷ [])))
