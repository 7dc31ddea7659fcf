-- ===== src/Endpoint/Calls.antt =====
-- All the calls of the REST endpoints, and how `winecord_rest_run` ends for each.
use wineberry_discord.Prelude.{
  ◌≡◌, ◌<◌, ◌≤◌, Bool, true, List, [], length, arith, sym, subst, Bool-cases, inl, inr,
}
use wineberry_discord.Rest.Key.{Arg, Methods, route_len}
use wineberry_discord.Endpoint.{
  Reply, bad_parameter, runs, endpoint_len, Outcome, refused, malformed, aborted, begun,
  is_malformed, rest_run, outcome,
}
use wineberry_discord.Endpoint.Sound.{IsSound, is_refused, is_sent, text_size, rest_run-begun}
use wineberry_discord.Endpoint.ApplicationCommand
use wineberry_discord.Endpoint.Attachment
use wineberry_discord.Endpoint.AutoModeration
use wineberry_discord.Endpoint.Bulk
use wineberry_discord.Endpoint.Channel
use wineberry_discord.Endpoint.Emoji
use wineberry_discord.Endpoint.GatewayUrl
use wineberry_discord.Endpoint.Guild
use wineberry_discord.Endpoint.GuildTemplate
use wineberry_discord.Endpoint.Interaction
use wineberry_discord.Endpoint.Invite
use wineberry_discord.Endpoint.Member
use wineberry_discord.Endpoint.Message
use wineberry_discord.Endpoint.Oauth2
use wineberry_discord.Endpoint.Reaction
use wineberry_discord.Endpoint.ScheduledEvent
use wineberry_discord.Endpoint.Stage
use wineberry_discord.Endpoint.Sticker
use wineberry_discord.Endpoint.User
use wineberry_discord.Endpoint.VoiceRegion
use wineberry_discord.Endpoint.Webhook
use wineberry_discord.Endpoint.ApplicationCommand.Calls.{ApplicationCommandCall}
use wineberry_discord.Endpoint.Attachment.Calls.{AttachmentCall}
use wineberry_discord.Endpoint.AutoModeration.Calls.{AutoModerationCall}
use wineberry_discord.Endpoint.Bulk.Calls.{BulkCall}
use wineberry_discord.Endpoint.Channel.Calls.{ChannelCall}
use wineberry_discord.Endpoint.Emoji.Calls.{EmojiCall}
use wineberry_discord.Endpoint.GatewayUrl.Calls.{GatewayUrlCall}
use wineberry_discord.Endpoint.Guild.Calls.{GuildCall}
use wineberry_discord.Endpoint.GuildTemplate.Calls.{GuildTemplateCall}
use wineberry_discord.Endpoint.Interaction.Calls.{InteractionCall}
use wineberry_discord.Endpoint.Invite.Calls.{InviteCall}
use wineberry_discord.Endpoint.Member.Calls.{MemberCall}
use wineberry_discord.Endpoint.Message.Calls.{MessageCall}
use wineberry_discord.Endpoint.Oauth2.Calls.{Oauth2Call}
use wineberry_discord.Endpoint.Reaction.Calls.{ReactionCall}
use wineberry_discord.Endpoint.ScheduledEvent.Calls.{ScheduledEventCall}
use wineberry_discord.Endpoint.Stage.Calls.{StageCall}
use wineberry_discord.Endpoint.Sticker.Calls.{StickerCall}
use wineberry_discord.Endpoint.User.Calls.{UserCall}
use wineberry_discord.Endpoint.VoiceRegion.Calls.{VoiceRegionCall}
use wineberry_discord.Endpoint.Webhook.Calls.{WebhookCall}

pub data Call : Type 0 where
  application_command : ApplicationCommandCall → Call
  attachment : AttachmentCall → Call
  auto_moderation : AutoModerationCall → Call
  bulk : BulkCall → Call
  channel : ChannelCall → Call
  emoji : EmojiCall → Call
  gateway_url : GatewayUrlCall → Call
  guild : GuildCall → Call
  guild_template : GuildTemplateCall → Call
  interaction : InteractionCall → Call
  invite : InviteCall → Call
  member : MemberCall → Call
  message : MessageCall → Call
  oauth2 : Oauth2Call → Call
  reaction : ReactionCall → Call
  scheduled_event : ScheduledEventCall → Call
  stage : StageCall → Call
  sticker : StickerCall → Call
  user : UserCall → Call
  voice_region : VoiceRegionCall → Call
  webhook : WebhookCall → Call

abbrev pub reply : Call → Reply
reply (application_command c) = ApplicationCommand.Calls.reply c
reply (attachment c) = Attachment.Calls.reply c
reply (auto_moderation c) = AutoModeration.Calls.reply c
reply (bulk c) = Bulk.Calls.reply c
reply (channel c) = Channel.Calls.reply c
reply (emoji c) = Emoji.Calls.reply c
reply (gateway_url c) = GatewayUrl.Calls.reply c
reply (guild c) = Guild.Calls.reply c
reply (guild_template c) = GuildTemplate.Calls.reply c
reply (interaction c) = Interaction.Calls.reply c
reply (invite c) = Invite.Calls.reply c
reply (member c) = Member.Calls.reply c
reply (message c) = Message.Calls.reply c
reply (oauth2 c) = Oauth2.Calls.reply c
reply (reaction c) = Reaction.Calls.reply c
reply (scheduled_event c) = ScheduledEvent.Calls.reply c
reply (stage c) = Stage.Calls.reply c
reply (sticker c) = Sticker.Calls.reply c
reply (user c) = User.Calls.reply c
reply (voice_region c) = VoiceRegion.Calls.reply c
reply (webhook c) = Webhook.Calls.reply c

-- What some functions do not check themselves: `winecord_modify_user_voice_state` has a user, and
-- `winecord_bulk_delete_messages` a channel, that is not 0, and an emoji has a name.
abbrev pub is_checked : Call → Bool
is_checked (member c) = Member.Calls.is_checked c
is_checked (reaction c) = Reaction.Calls.is_checked c
is_checked (bulk c) = Bulk.Calls.is_checked c
is_checked c = true

-- A call that has what its function does not check itself ends at a check, or runs a request all of whose
-- ids are not 0, all of whose texts have a byte, whose format takes exactly its kinds of arguments and
-- whose key fits its buffer.
pub reply-IsSound : (c : Call) → is_checked c ≡ true → IsSound (reply c)
reply-IsSound (application_command c) e = ApplicationCommand.Calls.reply-IsSound c
reply-IsSound (attachment c) e = Attachment.Calls.reply-IsSound c
reply-IsSound (auto_moderation c) e = AutoModeration.Calls.reply-IsSound c
reply-IsSound (bulk c) e = Bulk.Calls.reply-IsSound c e
reply-IsSound (channel c) e = Channel.Calls.reply-IsSound c
reply-IsSound (emoji c) e = Emoji.Calls.reply-IsSound c
reply-IsSound (gateway_url c) e = GatewayUrl.Calls.reply-IsSound c
reply-IsSound (guild c) e = Guild.Calls.reply-IsSound c
reply-IsSound (guild_template c) e = GuildTemplate.Calls.reply-IsSound c
reply-IsSound (interaction c) e = Interaction.Calls.reply-IsSound c
reply-IsSound (invite c) e = Invite.Calls.reply-IsSound c
reply-IsSound (member c) e = Member.Calls.reply-IsSound c e
reply-IsSound (message c) e = Message.Calls.reply-IsSound c
reply-IsSound (oauth2 c) e = Oauth2.Calls.reply-IsSound c
reply-IsSound (reaction c) e = Reaction.Calls.reply-IsSound c e
reply-IsSound (scheduled_event c) e = ScheduledEvent.Calls.reply-IsSound c
reply-IsSound (stage c) e = Stage.Calls.reply-IsSound c
reply-IsSound (sticker c) e = Sticker.Calls.reply-IsSound c
reply-IsSound (user c) e = User.Calls.reply-IsSound c
reply-IsSound (voice_region c) e = VoiceRegion.Calls.reply-IsSound c
reply-IsSound (webhook c) e = Webhook.Calls.reply-IsSound c

abbrev pub args_of : Reply → List Arg
args_of bad_parameter = []
args_of (runs m body reason response fmt args) = args

-- No assertion failed, and what began fits the buffers for the URL and for the key.
abbrev pub IsAnswered : Outcome → Type 0
IsAnswered refused = Unit
IsAnswered malformed = Unit
IsAnswered aborted = ⊥
IsAnswered (begun m url key) = (length url < endpoint_len) × (length key < route_len)

module _ (methods : Methods) where
  outcome-IsAnswered :
      {r : Reply} → IsSound r → text_size (args_of r) ≤ 256 → IsAnswered (outcome methods r)
  outcome-IsAnswered is_refused t = tt
  outcome-IsAnswered (is_sent m body reason response fmt args h s) t =
      elim (Bool-cases (is_malformed body)) [
        | inl y ↦
            let ends : rest_run methods m body fmt args ≡ malformed = ground (arith, y) in
            subst IsAnswered (sym ends) tt
        | inr n ↦
            let (url, key, e, short, shorter) = rest_run-begun methods m body fmt args h s n t in
            subst IsAnswered (sym e) (short, shorter)
      ]

  -- A call that has what its function does not check itself, and whose texts have at most 256 bytes
  -- together, fails no assertion of `winecord_rest_run`: it is refused, or its body is malformed, or
  -- its request begins with a URL and a key that fit their buffers.
  pub outcome-reply-IsAnswered :
      (c : Call)
      → is_checked c ≡ true
      → text_size (args_of (reply c)) ≤ 256
      → IsAnswered (outcome methods (reply c))
  outcome-reply-IsAnswered c e t = outcome-IsAnswered (reply-IsSound c e) t
