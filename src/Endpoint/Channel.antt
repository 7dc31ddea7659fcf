-- ===== src/Endpoint/Channel.antt =====
-- channel.c: the functions that begin a request about a channel.
pub mod Calls
use wineberry_discord.Prelude.{ℕ, Bool, [], ◌∷◌, Option, none, some, ◌/◌}
use wineberry_discord.Prelude.Texts.{Text, codes}
use wineberry_discord.Rest.Key.{get, put, post, patch, delete, id}
use wineberry_discord.Endpoint.{object, list, blank, Reply, runs, expect, given, is_set, reason_of}

abbrev pub get_channel : ℕ → Reply
get_channel channel_id =
    expect (is_set channel_id)
      (runs get none none object (codes "/channels/%lu") (id channel_id ∷ []))

abbrev pub modify_channel : ℕ → Option (Option Text) → ℕ → Reply
modify_channel channel_id params size = expect (is_set channel_id) (
    given params
      (λ reason. runs patch (some size) reason object (codes "/channels/%lu") (id channel_id ∷ [])))

abbrev pub delete_channel : ℕ → Option (Option Text) → Reply
delete_channel channel_id params =
    expect (is_set channel_id)
      (runs delete none (reason_of params) object (codes "/channels/%lu") (id channel_id ∷ []))

abbrev pub edit_channel_permissions : ℕ → ℕ → Option (Option Text) → ℕ → Reply
edit_channel_permissions channel_id overwrite_id params size = expect (is_set channel_id) (
    expect (is_set overwrite_id) (
      given params (λ reason.
        runs put (some size) reason blank (codes "/channels/%lu/permissions/%lu")
          (id channel_id ∷ id overwrite_id ∷ []))))

abbrev pub get_channel_invites : ℕ → Reply
get_channel_invites channel_id =
    expect (is_set channel_id)
      (runs get none none list (codes "/channels/%lu/invites") (id channel_id ∷ []))

abbrev pub create_channel_invite : ℕ → Option (Option Text) → ℕ → Reply
create_channel_invite channel_id params size = expect (is_set channel_id) (
    runs post (some size) (reason_of params) object (codes "/channels/%lu/invites")
      (id channel_id ∷ []))

abbrev pub delete_channel_permission : ℕ → ℕ → Option (Option Text) → Reply
delete_channel_permission channel_id overwrite_id params = expect (is_set channel_id) (
    expect (is_set overwrite_id) (
      runs delete none (reason_of params) blank (codes "/channels/%lu/permissions/%lu")
        (id channel_id ∷ id overwrite_id ∷ [])))

pub record FollowNewsChannel : Type 0 where
  pub webhook_channel_id : ℕ

abbrev pub follow_news_channel : ℕ → Option FollowNewsChannel → ℕ → Reply
follow_news_channel channel_id params size = expect (is_set channel_id) (
    given params (λ p.
      expect (is_set p.webhook_channel_id)
        (runs post (some size) none object (codes "/channels/%lu/followers") (id channel_id ∷ []))))

abbrev pub group_dm_add_recipient : ℕ → ℕ → Bool → ℕ → Reply
group_dm_add_recipient channel_id user_id has_params size = expect (is_set channel_id) (
    expect (is_set user_id) (
      expect has_params (
        runs put (some size) none blank (codes "/channels/%lu/recipients/%lu")
          (id channel_id ∷ id user_id ∷ []))))

abbrev pub group_dm_remove_recipient : ℕ → ℕ → Reply
group_dm_remove_recipient channel_id user_id = expect (is_set channel_id) (
    expect (is_set user_id) (
      runs delete none none blank (codes "/channels/%lu/recipients/%lu")
        (id channel_id ∷ id user_id ∷ [])))

abbrev pub join_thread : ℕ → Reply
join_thread channel_id =
    expect (is_set channel_id)
      (runs put none none blank (codes "/channels/%lu/thread-members/@me") (id channel_id ∷ []))

abbrev pub add_thread_member : ℕ → ℕ → Reply
add_thread_member channel_id user_id = expect (is_set channel_id) (
    expect (is_set user_id) (
      runs put none none blank (codes "/channels/%lu/thread-members/%lu")
        (id channel_id ∷ id user_id ∷ [])))

abbrev pub leave_thread : ℕ → Reply
leave_thread channel_id =
    expect (is_set channel_id)
      (runs delete none none blank (codes "/channels/%lu/thread-members/@me") (id channel_id ∷ []))

abbrev pub remove_thread_member : ℕ → ℕ → Reply
remove_thread_member channel_id user_id = expect (is_set channel_id) (
    expect (is_set user_id) (
      runs delete none none blank (codes "/channels/%lu/thread-members/%lu")
        (id channel_id ∷ id user_id ∷ [])))

abbrev pub list_thread_members : ℕ → Reply
list_thread_members channel_id =
    expect (is_set channel_id)
      (runs get none none list (codes "/channels/%lu/thread-members") (id channel_id ∷ []))

abbrev pub list_active_threads : ℕ → Reply
list_active_threads channel_id =
    expect (is_set channel_id)
      (runs get none none object (codes "/channels/%lu/threads/active") (id channel_id ∷ []))
