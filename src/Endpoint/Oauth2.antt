-- ===== src/Endpoint/Oauth2.antt =====
-- oauth2.c: the functions that begin a request.
pub mod Calls
use wineberry_discord.Prelude.{[], none, ◌/◌}
use wineberry_discord.Prelude.Texts.{codes}
use wineberry_discord.Rest.Key.{get}
use wineberry_discord.Endpoint.{object, Reply, runs}

abbrev pub get_current_bot_application_information : Reply
get_current_bot_application_information =
    runs get none none object (codes "/oauth2/applications/@me") []

abbrev pub get_current_authorization_information : Reply
get_current_authorization_information = runs get none none object (codes "/oauth2/@me") []
