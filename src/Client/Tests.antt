-- ===== src/Client/Tests.antt =====
-- Templates of a token, and the theorems about them at them.
use wineberry_discord.Prelude.{◌≡◌, ◌≤◌, List, [], ◌∷◌, Option, none, some, arith, refl}
use wineberry_discord.Prelude.Texts.{Text, codes}
use wineberry_discord.Client.{Run, parse_init_string}
use wineberry_discord.Client.Expand.{
  Piece, byte, variable, render, parse_init_string-render, parse_init_string_too_long,
}

-- Each variable has the value "xyz".
abbrev environment : Text → Option Text
environment name = some (codes "xyz")

abbrev template : List Piece
template = byte 98 ∷ variable (codes "TOKEN") ∷ []

rendered : render template ≡ codes "b${TOKEN}"
rendered = refl

-- The byte that ends the value is behind a buffer of four bytes.
one_behind :
    parse_init_string environment 4 (codes "b${TOKEN}") ≡ some (record { text = none; touched = 5 })
unfolding wineberry_discord.Client.parse_loop wineberry_discord.Client.until_brace
one_behind = refl

parse_init_string-render_example :
    (run : Run) × (parse_init_string environment 5 (render template) ≡ some run)
    × (run.text ≡ some (codes "bxyz"))
    × (run.touched ≤ 5)
parse_init_string-render_example =
    parse_init_string-render environment template 5 refl (omega arith)

parse_init_string_too_long_example :
    (run : Run) × (parse_init_string environment 4 (render template) ≡ some run)
    × (run.text ≡ none)
    × (run.touched ≤ 5)
parse_init_string_too_long_example =
    parse_init_string_too_long environment template 4 refl (omega arith) (omega arith)
