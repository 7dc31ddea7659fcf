-- ===== src/Endpoint/Tests.antt =====
-- Calls of some endpoints, and the theorems about them at them.
use wineberry_discord.Prelude.{[], ◌∷◌, ◌≡◌, none, some, arith, refl}
use wineberry_discord.Prelude.Texts.{codes}
use wineberry_discord.Rest.Key.{get, patch, id}
use wineberry_discord.Rest.Key.Tests.{numbered}
use wineberry_discord.Endpoint.{blank, runs, bad_parameter, begun, outcome}
use wineberry_discord.Endpoint.Sound.{IsSound}
use wineberry_discord.Endpoint.Calls.{
  Call, member, webhook, reply, IsAnswered, reply-IsSound, outcome-reply-IsAnswered,
}
use wineberry_discord.Endpoint.Member
use wineberry_discord.Endpoint.Webhook

abbrev voice_state : Call
voice_state = member (Member.Calls.modify_user_voice_state 41 7 20)

abbrev by_token : Call
by_token = webhook (Webhook.Calls.get_webhook_with_token 41 (some (codes "aw")))

-- The user 0 of a voice state is not noticed.
no_user :
    reply (member (Member.Calls.modify_user_voice_state 41 0 20))
    ≡ runs patch (some 20) none blank (codes "/guilds/%lu/voice-states/%lu") (id 41 ∷ id 0 ∷ [])
no_user = refl

no_token : reply (webhook (Webhook.Calls.get_webhook_with_token 41 none)) ≡ bad_parameter
no_token = refl

token_begins :
    outcome numbered (reply by_token)
    ≡ begun get (codes "/webhooks/41/aw") (codes ":2:webhooks:%lu:%s")
unfolding wineberry_discord.Rest.Key.build_key wineberry_discord.Rest.Key.consume
    wineberry_discord.Rest.Key.key_push wineberry_discord.Rest.Key.key_sections
    wineberry_discord.Prelude.Texts.digits wineberry_discord.Endpoint.printf
token_begins = refl

reply-IsSound_example : IsSound (reply voice_state)
reply-IsSound_example = reply-IsSound voice_state refl

outcome-reply-IsAnswered_example : IsAnswered (outcome numbered (reply by_token))
outcome-reply-IsAnswered_example = outcome-reply-IsAnswered numbered by_token refl (omega arith)
