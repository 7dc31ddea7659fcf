-- ===== src/Client/Expand.antt =====
-- winecord-client.c: that `_parse_init_string` replaces the variables of a template.
use wineberry_discord.Prelude.{
  ℕ, zero, suc, ◌&&◌, ◌+◌, ◌-◌, ◌≡◌, ◌<◌, ◌≤◌, ◌==◌, Bool, true, not, List, [], ◌∷◌, ◌++◌, Option,
  none, some, ltb, length, length-append, if◌then◌else◌, arith, refl, Bool-cases, Option-cases, inl,
  inr, append_assoc, append-nil,
}
use wineberry_discord.Prelude.Texts.{Text, lacks}
use wineberry_discord.Client.{
  until_brace, Run, larger, fails, name_size, parse_env, parse_loop, parse_init_string,
}

-- A template: bytes, and names of variables.
pub data Piece : Type 0 where
  byte : ℕ → Piece
  variable : Text → Piece

abbrev pub render : List Piece → Text
render [] = []
render (byte c ∷ ps) = c ∷ render ps
render (variable name ∷ ps) = 36 ∷ (123 ∷ (name ++ (125 ∷ render ps)))

until_brace-append :
    (name s : Text) → lacks 125 name ≡ true → until_brace (name ++ (125 ∷ s)) ≡ some (name, s)
unfolding until_brace
until_brace-append [] s h = refl
until_brace-append (c ∷ name) s h = ground (arith, h, until_brace-append name s (ground (arith, h)))

module _ (getenv : Text → Option Text) where
  abbrev pub value_of : Text → Text
  value_of name = elim (getenv name) [ none ↦ [] | some value ↦ value ]

  abbrev pub meaning : List Piece → Text
  meaning [] = []
  meaning (byte c ∷ ps) = c ∷ meaning ps
  meaning (variable name ∷ ps) = value_of name ++ meaning ps

  -- A byte is not '$'. A name has no '}', fits its buffer and is the name of a variable that is not
  -- empty.
  abbrev pub is_plain : Piece → Bool
  is_plain (byte c) = not (c == 36)
  is_plain (variable name) =
      lacks 125 name && (ltb (length name) name_size && not (length (value_of name) == 0))

  abbrev pub all_plain : List Piece → Bool
  all_plain [] = true
  all_plain (p ∷ ps) = is_plain p && all_plain ps

  parse_env-variable :
      (left : ℕ) (name s : Text)
      → is_plain (variable name) ≡ true
      → parse_env getenv left (123 ∷ (name ++ (125 ∷ s)))
        ≡ (if ltb left (length (value_of name)) then none else some (value_of name, s))
  parse_env-variable left name s h = elim (Option-cases (getenv name)) [
    | inl e ↦ absurd (ground (arith, h, e))
    | inr (value, e) ↦ ground (arith, h, e, until_brace-append name s (ground (arith, h)))
  ]

  expand_fits :
      (ps : List Piece) (fuel left : ℕ) (dest : Text) (touched : ℕ)
      → all_plain ps ≡ true
      → length (render ps) < fuel
      → length (meaning ps) < left
      → touched ≤ length dest + left
      → (run : Run) × (parse_loop getenv fuel left (render ps) dest touched ≡ some run)
        × (run.text ≡ some (dest ++ meaning ps))
        × (run.touched ≤ length dest + left)
  unfolding parse_loop
  expand_fits ps zero left dest touched h f l t = absurd (omega arith)
  expand_fits [] (suc fuel) left dest touched h f l t = (
    record { text = some dest; touched = larger touched (length dest + 1) },
    refl,
    ground (arith, append-nil dest),
    ground (arith, t, l),
  )
  expand_fits (byte c ∷ ps) (suc fuel) left dest touched h f l t =
      let touched' = larger touched (length dest + 1) in
      let longer = length-append dest (c ∷ []) in
      let (run, e, d, b) =
        expand_fits ps fuel (left - 1) (dest ++ c ∷ []) touched' (ground (arith, h)) (omega arith)
          (ground (arith, l)) (ground (arith, t, l, longer)) in
      (
        run,
        ground (arith, h, l, e),
        ground (arith, d, append_assoc dest (c ∷ []) (meaning ps)),
        ground (arith, b, longer, l),
      )
  expand_fits (variable name ∷ ps) (suc fuel) left dest touched h f l t =
      let value = value_of name in
      let dest' = dest ++ value in
      let touched' = larger touched (length dest' + 1) in
      let longer = length-append dest value in
      let sum = length-append value (meaning ps) in
      let size = length-append name (125 ∷ render ps) in
      let parsed = parse_env-variable left name (render ps) (ground (arith, h)) in
      let (run, e, d, b) =
        expand_fits ps fuel (left - length value) dest' touched' (ground (arith, h))
          (ground (arith, f, size)) (ground (arith, l, sum)) (ground (arith, t, l, sum, longer)) in
      (
        run,
        ground (arith, h, l, sum, parsed, e),
        ground (arith, d, append_assoc dest value (meaning ps)),
        ground (arith, b, longer, l, sum),
      )

  expand_too_long :
      (ps : List Piece) (fuel left : ℕ) (dest : Text) (touched : ℕ)
      → all_plain ps ≡ true
      → length (render ps) < fuel
      → 0 < left
      → left ≤ length (meaning ps)
      → touched ≤ length dest + left
      → (run : Run) × (parse_loop getenv fuel left (render ps) dest touched ≡ some run)
        × (run.text ≡ none)
        × (run.touched ≤ length dest + left + 1)
  unfolding parse_loop
  expand_too_long ps zero left dest touched h f z l t = absurd (omega arith)
  expand_too_long [] (suc fuel) left dest touched h f z l t = absurd (omega arith)
  expand_too_long (byte c ∷ ps) (suc fuel) left dest touched h f z l t =
      let touched' = larger touched (length dest + 1) in
      let longer = length-append dest (c ∷ []) in
      elim (Bool-cases (left - 1 == 0)) [
        | inl y ↦ (fails touched', ground (arith, h, y), refl, ground (arith, t, z))
        | inr n ↦
            let (run, e, d, b) =
              expand_too_long ps fuel (left - 1) (dest ++ c ∷ []) touched' (ground (arith, h))
                (omega arith) (ground (arith, n)) (ground (arith, l))
                (ground (arith, t, z, n, longer)) in
            (run, ground (arith, h, n, e), d, ground (arith, b, longer, n))
      ]
  expand_too_long (variable name ∷ ps) (suc fuel) left dest touched h f z l t =
      let value = value_of name in
      let dest' = dest ++ value in
      let touched' = larger touched (length dest' + 1) in
      let longer = length-append dest value in
      let sum = length-append value (meaning ps) in
      let size = length-append name (125 ∷ render ps) in
      let parsed = parse_env-variable left name (render ps) (ground (arith, h)) in
      elim (Bool-cases (ltb left (length value))) [
        | inl y ↦ (fails touched, ground (arith, parsed, y), refl, ground (arith, t))
        | inr n ↦ elim (Bool-cases (left - length value == 0)) [
          | inl y ↦
              (fails touched', ground (arith, parsed, n, y), refl, ground (arith, t, n, y, longer))
          | inr m ↦
              let (run, e, d, b) =
                expand_too_long ps fuel (left - length value) dest' touched' (ground (arith, h))
                  (ground (arith, f, size)) (ground (arith, m)) (ground (arith, l, sum))
                  (ground (arith, t, n, m, longer)) in
              (run, ground (arith, h, n, m, parsed, e), d, ground (arith, b, longer, n, m))
        ]
      ]

  -- A template of bytes other than '$' and of set variables, not empty, whose names are short enough and
  -- have no '}', becomes its text with the values of the variables when that is shorter than the
  -- buffer, and no byte behind the buffer is written to.
  pub parse_init_string-render :
      (ps : List Piece) (size : ℕ)
      → all_plain ps ≡ true
      → length (meaning ps) < size
      → (run : Run) × (parse_init_string getenv size (render ps) ≡ some run)
        × (run.text ≡ some (meaning ps))
        × (run.touched ≤ size)
  parse_init_string-render ps size h l =
      let (run, e, d, b) =
        expand_fits ps (suc (length (render ps))) size [] 0 h (omega arith) l (omega arith) in
      (run, e, d, omega arith)

  -- Such a template whose text is as long as the buffer or longer is refused; at most one byte behind the
  -- buffer is written to.
  pub parse_init_string_too_long :
      (ps : List Piece) (size : ℕ)
      → all_plain ps ≡ true
      → 0 < size
      → size ≤ length (meaning ps)
      → (run : Run) × (parse_init_string getenv size (render ps) ≡ some run)
        × (run.text ≡ none)
        × (run.touched ≤ size + 1)
  parse_init_string_too_long ps size h z l =
      let (run, e, d, b) =
        expand_too_long ps (suc (length (render ps))) size [] 0 h (omega arith) z l (omega arith) in
      (run, e, d, omega arith)
