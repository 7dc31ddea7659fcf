-- ===== src/Commands/Words.antt =====
-- winecord-messagecommands.c: which callback a message finds.
use wineberry_discord.Prelude.{
  ℕ, ◌∙◌, ◌≡◌, ◌==◌, ◌&&◌, ◌++◌, not, Bool, true, false, [], ◌∷◌, some, drop, length, arith, refl,
}
use wineberry_discord.Prelude.Texts.{is_prefix}
use wineberry_discord.Chash.{Chash, is_some}
use wineberry_discord.Chash.Texts.{same_iff}
use wineberry_discord.Rest.{Text, same}
use wineberry_discord.Commands.{
  is_stop, word, skip_spaces, performs, Commands, append, match_command, try_match,
}

-- No blank ends the word early.
abbrev pub is_word : Text → Bool
is_word [] = true
is_word (c ∷ cs) = not (is_stop c) && is_word cs

abbrev pub ends_word : Text → Bool
ends_word [] = true
ends_word (c ∷ cs) = is_stop c

word-append :
    (command rest : Text)
    → is_word command ≡ true
    → ends_word rest ≡ true
    → word (command ++ rest) ≡ command
word-append [] [] h e = refl
word-append [] (c ∷ rest) h e = rw e refl
word-append (c ∷ command) rest h e =
    ground (arith, h, word-append command rest (ground (arith, h)) e)

drop-append : (xs ys : Text) → drop (length xs) (xs ++ ys) ≡ ys
drop-append [] ys = refl
drop-append (x ∷ xs) ys = drop-append xs ys

is_prefix-append : (xs ys : Text) → is_prefix xs (xs ++ ys) ≡ true
is_prefix-append [] ys = refl
is_prefix-append (x ∷ xs) ys = ground (arith, is_prefix-append xs ys)

-- The table is not empty where it has a command.
abbrev pub Counts : (chash : Chash Text ℕ same) → (chash.Carrier → Bool) → Type 0
Counts chash has_entries =
    (t : chash.Carrier) (k : Text) → is_some (chash.lookup t k) ≡ true → has_entries t ≡ true

module _ (chash : Chash Text ℕ same) (has_entries : chash.Carrier → Bool) where
  append-word :
      (cmds : Commands chash has_entries) (command : Text) (callback : ℕ)
      → (length command == 0) ≡ false
      → append chash has_entries cmds command callback
        ≡ record cmds { table = (chash.assign cmds.table command callback).0 }
  unfolding append
  append-word cmds command callback l = ground (arith, l)

  match_command-found :
      (cmds : Commands chash has_entries) (text : Text) (f : ℕ)
      → chash.lookup cmds.table (word text) ≡ some f
      → match_command chash has_entries cmds text
        ≡ performs f (skip_spaces (drop (length (word text)) text))
  unfolding match_command
  match_command-found cmds text f h = ground (arith, h, chash.contains_lem cmds.table (word text))

  -- A message of the prefix, a command that has just been given a callback and is a word, not empty,
  -- and a rest that is empty or begins with a blank: the callback is called with the rest, less its
  -- leading blanks.
  pub try_match-append :
      (cmds : Commands chash has_entries) (command : Text) (callback : ℕ) (rest raw : Text)
      → Counts chash has_entries
      → is_word command ≡ true
      → (length command == 0) ≡ false
      → ends_word rest ≡ true
      → try_match chash has_entries
          (append chash has_entries cmds command callback)
          (some (cmds.prefix ++ raw))
          (cmds.prefix ++ (command ++ rest))
        ≡ performs callback (skip_spaces rest)
  unfolding try_match
  try_match-append cmds command callback rest raw n w l e =
      let t = (chash.assign cmds.table command callback).0 in
      let cmds' = record cmds { table = t } in
      let text = command ++ rest in
      let found : chash.lookup t command ≡ some callback = ground (
        arith,
        chash.lookup-assign cmds.table command callback command,
        same_iff command command,
      ) in
      let first = word-append command rest w e in
      let matched : match_command chash has_entries cmds' text
          ≡ performs callback (skip_spaces rest) =
        match_command-found cmds' text callback (rw first found)
        ∙ rw (first, drop-append command rest) refl in
      rw
        (
          append-word cmds command callback l,
          n t command (ground (arith, found)),
          is_prefix-append cmds.prefix raw,
          drop-append cmds.prefix text,
        )
        matched
