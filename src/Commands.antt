-- ===== src/Commands.antt =====
-- source/wineberry/discord/winecord-messagecommands.c: commands that begin with a prefix, each with a
-- callback. Texts are lists of characters; a callback is a number. The payload's JSON is read by other
-- code: `raw` is what follows the opening quote of its "content", and `content` is the decoded text of
-- the message that is made from it, at an address that calloc returned. Logging is left out.
pub mod Words
pub mod Release
mod Tests
use wineberry_discord.Prelude.{
  ℕ, ◌==◌, ◌&&◌, ◌||◌, ◌++◌, not, Bool, true, false, List, [], ◌∷◌, Option, none, some, ltb, leb,
  drop, length, if◌then◌else◌,
}
use wineberry_discord.Prelude.Texts.{is_prefix}
use wineberry_discord.Chash.{Chash, is_some}
use wineberry_discord.Rest.{Text, same}
use wineberry_discord.Refcount.{
  RefValue, Refcounter, Code, ok, resource_unavailable, resource_ownership, Effect, free,
  internal_cleanup, incr, decr, add_internal,
}

-- `strcspn(s, " \n\t\r")` stops at these, and `isspace` holds of those.
abbrev pub is_stop : ℕ → Bool
is_stop c = c == 32 || (c == 10 || (c == 9 || c == 13))

abbrev pub is_space : ℕ → Bool
is_space c = c == 32 || (leb 9 c && leb c 13)

abbrev pub word : Text → Text
word [] = []
word (c ∷ cs) = if is_stop c then [] else c ∷ word cs

abbrev pub skip_spaces : Text → Text
skip_spaces [] = []
skip_spaces (c ∷ cs) = if is_space c then skip_spaces cs else c ∷ cs

-- `_winecord_message_cleanup_v`, as the number of a cleanup.
abbrev pub message_cleanup : ℕ
message_cleanup = 2

abbrev pub is_unavailable : Code → Bool
is_unavailable ok = false
is_unavailable resource_unavailable = true
is_unavailable resource_ownership = false

-- What a message comes to: it is not one for the commands, or it is with no callback, or a callback is
-- to be called with what follows the command.
pub data Match : Type 0 where
  ignored unmatched : Match
  performs : ℕ → Text → Match

module _ (refs : Chash ℕ RefValue ◌==◌) where
  -- The message is referred to while its callback runs.
  unfoldable pub hold : Refcounter refs → ℕ → Refcounter refs
  hold rc p =
      let (rc', code) = incr refs rc p in
      if is_unavailable code then add_internal refs rc' p (some message_cleanup) false else rc'

  -- What a callback does to the reference counter, with the message at an address.
  pub record User : Type 0 where
    pub effect : ℕ → Text → ℕ → Refcounter refs → Refcounter refs

  unfoldable pub perform_match : User → Refcounter refs → ℕ → Match → Refcounter refs × Bool
  unfolding hold
  perform_match user rc p ignored = (rc, false)
  perform_match user rc p unmatched =
      (record rc { effects = rc.effects ++ internal_cleanup message_cleanup p ∷ [] }, false)
  perform_match user rc p (performs f text) =
      ((decr refs (user.effect f text p (hold rc p)) p).0, true)

-- The commands' table, and whether its length is not 0.
module _ (chash : Chash Text ℕ same) (has_entries : chash.Carrier → Bool) where
  -- `struct winecord_message_commands`
  pub record Commands : Type 0 where
    pub table : chash.Carrier
    pub fallback : Option ℕ
    pub prefix : Text

  -- `winecord_message_commands_init`
  unfoldable pub init : Commands
  init = record { table = chash.init; fallback = none; prefix = [] }

  -- `winecord_message_commands_find`
  unfoldable pub find_command : Commands → Text → Option ℕ
  find_command cmds command =
      if chash.contains cmds.table command then chash.lookup cmds.table command else none

  -- `winecord_message_commands_append`
  unfoldable pub append : Commands → Text → ℕ → Commands
  append cmds command callback =
      if ltb 0 (length cmds.prefix) && length command == 0
      then record cmds { fallback = some callback }
      else record cmds { table = (chash.assign cmds.table command callback).0 }

  -- `winecord_message_commands_set_prefix`
  unfoldable pub set_prefix : Commands → Text → Commands
  set_prefix cmds prefix = record cmds { prefix = prefix }

  -- The match of a command to its callback, in `winecord_message_commands_try_perform`.
  unfoldable pub match_command : Commands → Text → Match
  unfolding find_command
  match_command cmds text = elim (find_command cmds (word text)) [
    | none ↦ elim cmds.fallback [
      | none ↦ unmatched
      | some f ↦ if length cmds.prefix == 0 then unmatched else performs f (skip_spaces text)
    ]
    | some f ↦ performs f (skip_spaces (drop (length (word text)) text))
  ]

  unfoldable pub try_match : Commands → Option Text → Text → Match
  unfolding match_command
  try_match cmds none content = ignored
  try_match cmds (some raw) content =
      if has_entries cmds.table && is_prefix cmds.prefix raw
      then match_command cmds (drop (length cmds.prefix) content)
      else ignored

  -- `winecord_message_commands_try_perform`
  unfoldable pub try_perform :
      (refs : Chash ℕ RefValue ◌==◌)
      → User refs
      → Commands
      → Refcounter refs
      → ℕ
      → Option Text
      → Text
      → Refcounter refs × Bool
  unfolding perform_match try_match
  try_perform refs user cmds rc p raw content =
      perform_match refs user rc p (try_match cmds raw content)
