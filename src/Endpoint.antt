-- ===== src/Endpoint.antt =====
-- winecord-rest.c (`winecord_rest_run`) and the checks of the functions that call it, one for each
-- endpoint of Discord. The files of source/wineberry/discord with one function for an endpoint have a
-- module each; the functions of channel.c, guild.c, interaction.c and webhook.c are in several.
-- The length of a body is what the function that writes it returns; it belongs to generated code, and so
-- do the attachments. CCORD_EXPECT, which some functions use and no file defines, is read as
-- WINEBERRY_EXPECT. `runs` stands for the call of winecord_rest_run that ends a function.
pub mod Sound
pub mod Calls
pub mod ApplicationCommand
pub mod Attachment
pub mod AutoModeration
pub mod Bulk
pub mod Channel
pub mod Emoji
pub mod GatewayUrl
pub mod Guild
pub mod GuildTemplate
pub mod Interaction
pub mod Invite
pub mod Member
pub mod Message
pub mod Oauth2
pub mod Reaction
pub mod ScheduledEvent
pub mod Stage
pub mod Sticker
pub mod User
pub mod VoiceRegion
pub mod Webhook
mod Tests
use wineberry_discord.Prelude.{
  ℕ, zero, suc, ◌==◌, not, Bool, true, false, List, [], ◌∷◌, ◌++◌, Option, none, some, length, ltb,
  if◌then◌else◌,
}
use wineberry_discord.Prelude.Texts.{Text, codes, is_prefix, digits}
use wineberry_discord.Rest.Key.{Method, Arg, id, text, num, Methods, build_key}

-- What is kept of the answer: an object, a list or nothing.
pub data Response : Type 0 where
  object list blank : Response

-- How a call ends: at a check, or as a request with the length of its body, the reason for the audit
-- log, the format of its endpoint and the arguments of the format.
pub data Reply : Type 0 where
  bad_parameter : Reply
  runs : Method → Option ℕ → Option Text → Response → Text → List Arg → Reply

-- WINEBERRY_EXPECT
abbrev pub expect : Bool → Reply → Reply
expect true r = r
expect false r = bad_parameter

-- The check `params != NULL` and what follows.
abbrev pub given : {A : Type 0} → Option A → (A → Reply) → Reply
given none f = bad_parameter
given (some a) f = f a

abbrev pub is_set : ℕ → Bool
is_set n = not (n == 0)

-- NOT_EMPTY_STR
abbrev pub not_empty : Option Text → Bool
not_empty none = false
not_empty (some []) = false
not_empty (some (c ∷ s)) = true

-- `params ? params->reason : NULL`
abbrev pub reason_of : Option (Option Text) → Option Text
reason_of none = none
reason_of (some reason) = reason

-- WINECORD_ENDPT_LEN
abbrev pub endpoint_len : ℕ
endpoint_len = 512

-- What an argument is written as where `s` follows the '%', and the length of its directive.
abbrev pub written : Text → Arg → Option (Text × ℕ)
written s (id n) = if is_prefix (codes "lu") s then some (digits 20 n, 2) else none
written s (text none) = none
written s (text (some t)) = if is_prefix (codes "s") s then some (t, 1) else none
written s (num n) = if is_prefix (codes "d") s then some (digits 10 n, 1) else none

-- What `printf` writes for "%lu", "%d" and "%s", after `skip` bytes of the format; `none` for another
-- directive, an argument of another type and a null pointer.
unfoldable pub printf : ℕ → Text → List Arg → Option Text
printf skip [] args = some []
printf (suc skip) (c ∷ s) args = printf skip s args
printf zero (c ∷ s) [] = elim (c == 37) [
  | true ↦ none
  | false ↦ elim (printf 0 s []) [ none ↦ none | some out ↦ some (c ∷ out) ]
]
printf zero (c ∷ s) (a ∷ args) = elim (c == 37) [
  | true ↦ elim (written s a) [
    | none ↦ none
    | some (t, skip) ↦ elim (printf skip s args) [ none ↦ none | some out ↦ some (t ++ out) ]
  ]
  | false ↦ elim (printf 0 s (a ∷ args)) [ none ↦ none | some out ↦ some (c ∷ out) ]
]

-- How a request of an endpoint ends: with an error, at a failed assertion, or as a request that begins
-- with its method, its URL and the key of its bucket.
pub data Outcome : Type 0 where
  refused malformed aborted : Outcome
  begun : Method → Text → Text → Outcome

-- `body->start && !body->size`
abbrev pub is_malformed : Option ℕ → Bool
is_malformed none = false
is_malformed (some size) = size == 0

module _ (methods : Methods) where
  -- `winecord_rest_run`, up to `winecord_request_begin`
  abbrev pub rest_run : Method → Option ℕ → Text → List Arg → Outcome
  rest_run m body fmt args = elim (is_malformed body) [
    | true ↦ malformed
    | false ↦ elim (printf 0 fmt args) [
      | none ↦ aborted
      | some url ↦ elim (ltb (length url) endpoint_len) [
        | false ↦ aborted
        | true ↦ elim (build_key methods m fmt args) [ none ↦ aborted | some key ↦ begun m url key ]
      ]
    ]
  ]

  abbrev pub outcome : Reply → Outcome
  outcome bad_parameter = refused
  outcome (runs m body reason response fmt args) = rest_run m body fmt args
