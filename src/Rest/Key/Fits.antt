-- ===== src/Rest/Key/Fits.antt =====
-- winecord-rest_ratelimit.c: that a key fits into its buffer.
use wineberry_discord.Prelude.{
  ℕ, suc, ◌+◌, ◌≡◌, ◌<◌, ◌≤◌, ◌&&◌, Bool, true, false, List, [], ◌∷◌, ◌++◌, none, some, length,
  length-append, ltb, arith, refl, Bool-cases, Option-cases, inl, inr,
}
use wineberry_discord.Prelude.Texts.{Text, codes, is_prefix, digits, length-digits-le}
use wineberry_discord.Rest.Key.{
  Method, Arg, Methods, route_len, sections, consume, section_text, key_push, key_sections, as_post,
  build_key,
}

-- The arguments are those that the sections want.
abbrev pub consumes : List Text → List Arg → Bool
consumes [] args = true
consumes (s ∷ ss) args = elim (consume s args 0) [
  | none ↦ false
  | some (id_arg, args') ↦ consumes ss args'
]

-- The length of the texts of some sections, at most.
abbrev pub cost : List Text → ℕ
cost [] = 0
cost (s ∷ ss) = (21 + length s) + cost ss

abbrev pub fits : Text → List Arg → Bool
fits fmt args = consumes (sections fmt) args && ltb (11 + cost (sections fmt)) route_len

section_text-le : (prev s : Text) (id_arg : ℕ) → length (section_text prev s id_arg) ≤ 20 + length s
section_text-le prev s id_arg = ground (arith, length-digits-le 20 id_arg)

key_push-ok :
    (key s : Text) (n : ℕ)
    → length s ≤ n
    → length key + (suc n) < route_len
    → (key' : Text) × (key_push key s ≡ some key') × (length key' ≤ length key + suc n)
unfolding key_push
key_push-ok key s n h l = (
  key ++ (58 ∷ s),
  ground (arith, h, l, length-append key (58 ∷ s)),
  ground (arith, h, length-append key (58 ∷ s)),
)

key_sections-ok :
    (ss : List Text) (key prev : Text) (args : List Arg)
    → consumes ss args ≡ true
    → length key + cost ss < route_len
    → (key' : Text) × (key_sections key prev ss args ≡ some key') × (length key' < route_len)
unfolding key_sections
key_sections-ok [] key prev args c l = (key, refl, omega arith)
key_sections-ok (s ∷ ss) key prev args c l =
    elim (Bool-cases (is_prefix (codes "reactions") prev)) [
      | inl y ↦ (key, ground (arith, y), omega arith)
      | inr n ↦ elim (Option-cases (consume s args 0)) [
        | inl e ↦ absurd (ground (arith, c, e))
        | inr ((id_arg, args'), e) ↦
            let (key', p, q) =
              key_push-ok key (section_text prev s id_arg) (20 + length s)
                (section_text-le prev s id_arg) (omega arith) in
            let (key'', k, f) =
              key_sections-ok ss key' s args' (ground (arith, c, e)) (omega arith) in
            (key'', ground (arith, n, e, p, k), f)
      ]
    ]

module _ (methods : Methods) where
  -- A key fits its buffer.
  pub build_key-fits :
      (m : Method) (fmt : Text) (args : List Arg)
      → fits fmt args ≡ true
      → (key : Text) × (build_key methods m fmt args ≡ some key) × (length key < route_len)
  unfolding build_key
  build_key-fits m fmt args f =
      let number = methods.number (as_post m) in
      let (key, p, q) =
        key_push-ok [] (digits 10 number) 10 (length-digits-le 10 number) (omega arith) in
      let (key', k, l) =
        key_sections-ok (sections fmt) key [] args (ground (arith, f)) (ground (arith, f, q)) in
      (key', ground (arith, p, k), l)
