-- ===== src/Endpoint/Invite.antt =====
-- invite.c: the functions that begin a request.
pub mod Calls
use wineberry_discord.Prelude.{ℕ, Bool, [], ◌∷◌, Option, none, some, ◌/◌}
use wineberry_discord.Prelude.Texts.{Text, codes}
use wineberry_discord.Rest.Key.{get, delete, text}
use wineberry_discord.Endpoint.{object, Reply, runs, expect, not_empty, reason_of}

abbrev pub get_invite : Option Text → Bool → ℕ → Reply
get_invite invite_code has_params size = expect (not_empty invite_code) (
    expect has_params
      (runs get (some size) none object (codes "/invites/%s") (text invite_code ∷ [])))

abbrev pub delete_invite : Option Text → Option (Option Text) → Reply
delete_invite invite_code params =
    expect (not_empty invite_code)
      (runs delete none (reason_of params) object (codes "/invites/%s") (text invite_code ∷ []))
