-- ===== src/Client.antt =====
-- source/wineberry/discord/winecord-client.c: `_parse_env` and `_parse_init_string`, which replace each
-- `${NAME}` of a token or a file name by a variable of the environment. Texts are lists of bytes other
-- than 0, and `getenv` is an argument. The buffer is the list of bytes written so far, with the number
-- of bytes that are left; its `end` is where none is left.
pub mod Expand
mod Tests
use wineberry_discord.Prelude.{
  ℕ, zero, suc, ◌||◌, ◌+◌, ◌-◌, ◌==◌, true, false, [], ◌∷◌, ◌++◌, Option, none, some, ltb, leb,
  length, if◌then◌else◌,
}
use wineberry_discord.Prelude.Texts.{Text}

-- The name up to a '}' and what follows it; `none` where the text ends before.
unfoldable pub until_brace : Text → Option (Text × Text)
until_brace [] = none
until_brace (c ∷ s) =
    let rest = until_brace s in
    if c == 125
    then some ([], s)
    else elim rest [ none ↦ none | some (name, after) ↦ some (c ∷ name, after) ]

-- What a call does: the text, or `none` where the code returns false, and how many bytes of the buffer,
-- from its start, have been written to.
pub record Run : Type 0 where
  pub text : Option Text
  pub touched : ℕ

abbrev pub larger : ℕ → ℕ → ℕ
larger m n = if leb m n then n else m

abbrev pub fails : ℕ → Run
fails touched = record { text = none; touched = touched }

-- sizeof env_name
abbrev pub name_size : ℕ
name_size = 4096

module _ (getenv : Text → Option Text) where
  -- `_parse_env` after the '{': the value, and what is left of the source.
  abbrev pub parse_name : ℕ → Text → Option (Text × Text)
  parse_name left s = elim (until_brace s) [
    | none ↦ none
    | some (name, after) ↦ if leb name_size (length name) then none else elim (getenv name) [
      | none ↦ none
      | some value ↦ if ltb left (length value) then none else some (value, after)
    ]
  ]

  -- `_parse_env` after the '$', with `left` for `end - *dest`. `none` where it returns 0 without a write.
  abbrev pub parse_env : ℕ → Text → Option (Text × Text)
  parse_env left [] = none
  parse_env left (c ∷ s) = if c == 123 then parse_name left s else none

  -- The loop of `_parse_init_string`; `none` is an end of the fuel.
  unfoldable pub parse_loop : ℕ → ℕ → Text → Text → ℕ → Option Run
  parse_loop zero left src dest touched = none
  parse_loop (suc fuel) left [] dest touched =
      some (record { text = some dest; touched = larger touched (length dest + 1) })
  parse_loop (suc fuel) left (c ∷ src) dest touched = elim (c == 36) [
    | true ↦ elim (parse_env left src) [
      | none ↦ some (fails touched)
      | some (value, after) ↦
          let dest' = dest ++ value in
          let touched' = larger touched (length dest' + 1) in
          elim (length value == 0 || left - length value == 0) [
            | true ↦ some (fails touched')
            | false ↦ parse_loop fuel (left - length value) after dest' touched'
          ]
    ]
    | false ↦ elim (left - 1 == 0) [
      | true ↦ some (fails (larger touched (length dest + 1)))
      | false ↦ parse_loop fuel (left - 1) src (dest ++ c ∷ []) (larger touched (length dest + 1))
    ]
  ]

  -- `_parse_init_string`, of a buffer that is not empty.
  abbrev pub parse_init_string : ℕ → Text → Option Run
  parse_init_string size src = parse_loop (suc (length src)) size src [] 0
