-- ===== src/Endpoint/Stage.antt =====
-- stage_instance.c: the functions that begin a request.
pub mod Calls
use wineberry_discord.Prelude.{ℕ, [], ◌∷◌, Option, none, ◌/◌}
use wineberry_discord.Prelude.Texts.{Text, codes}
use wineberry_discord.Rest.Key.{get, delete, id}
use wineberry_discord.Endpoint.{object, blank, Reply, runs, expect, is_set, reason_of}

abbrev pub get_stage_instance : ℕ → Reply
get_stage_instance channel_id =
    expect (is_set channel_id)
      (runs get none none object (codes "/stage-instances/%lu") (id channel_id ∷ []))

abbrev pub delete_stage_instance : ℕ → Option (Option Text) → Reply
delete_stage_instance channel_id params =
    expect (is_set channel_id) (
      runs delete none (reason_of params) blank (codes "/stage-instances/%lu") (id channel_id ∷ []))
