-- ===== src/Rest/Key/Majors.antt =====
-- winecord-rest_ratelimit.c: which requests of an endpoint share a key.
use wineberry_discord.Prelude.{
  ℕ, ◌≡◌, ◌^◌, ◌<◌, ◌==◌, Bool, true, List, [], ◌∷◌, ◌++◌, none, some, length, if◌then◌else◌, arith,
  refl, Bool-cases, inl, inr,
}
use wineberry_discord.Prelude.Texts.{Text, codes, is_prefix, digits_injective, lacks, lacks-digits}
use wineberry_discord.Rest.Key.{Arg, sections, consume, is_major, section_text}

-- The id that each section has.
abbrev pub drawn : List Text → List Arg → List ℕ
drawn [] args = []
drawn (s ∷ ss) args = elim (consume s args 0) [
  | none ↦ []
  | some (id_arg, args') ↦ id_arg ∷ drawn ss args'
]

abbrev pub texts : Text → List Text → List ℕ → List Text
texts prev [] ids = []
texts prev (s ∷ ss) [] = []
texts prev (s ∷ ss) (i ∷ ids) =
    if is_prefix (codes "reactions") prev then [] else section_text prev s i ∷ texts s ss ids

abbrev pub majors_of : Text → List Text → List ℕ → List ℕ
majors_of prev [] ids = []
majors_of prev (s ∷ ss) [] = []
majors_of prev (s ∷ ss) (i ∷ ids) =
    let rest = majors_of s ss ids in
    if is_prefix (codes "reactions") prev then [] else (if is_major prev s then i ∷ rest else rest)

-- The major parameters of a request: the ids after "channels" and "guilds", before "reactions".
abbrev pub majors : Text → List Arg → List ℕ
majors fmt args = majors_of [] (sections fmt) (drawn (sections fmt) args)

abbrev pub join : List Text → Text
join [] = []
join (t ∷ ts) = 58 ∷ (t ++ join ts)

abbrev pub starts : Text → Bool
starts [] = true
starts (c ∷ s) = c == 58

pub starts-join : (ts : List Text) → starts (join ts) ≡ true
starts-join [] = refl
starts-join (t ∷ ts) = refl

-- Texts without a separator, before one, are cut off in one way.
pub cut :
    (t u r s : Text)
    → lacks 58 t ≡ true
    → lacks 58 u ≡ true
    → starts r ≡ true
    → starts s ≡ true
    → t ++ r ≡ u ++ s
    → (t ≡ u) × (r ≡ s)
cut [] [] r s h k p q e = (refl, e)
cut [] (d ∷ u) [] s h k p q e = cc
cut [] (d ∷ u) (c ∷ r) s h k p q e = absurd (ground (arith, k, p, e))
cut (c ∷ t) [] r [] h k p q e = cc
cut (c ∷ t) [] r (d ∷ s) h k p q e = absurd (ground (arith, h, q, e))
cut (c ∷ t) (d ∷ u) r s h k p q e =
    let tails : t ++ r ≡ u ++ s = ground (arith, e) in
    let heads : c ≡ d = ground (arith, e) in
    let (x, y) = cut t u r s (ground (arith, h)) (ground (arith, k)) p q tails in
    (ground (arith, x, heads), y)

abbrev pub AllLack : List Text → Type 0
AllLack [] = Unit
AllLack (s ∷ ss) = (lacks 58 s ≡ true) × AllLack ss

abbrev pub AllSmall : List ℕ → Type 0
AllSmall [] = Unit
AllSmall (i ∷ ids) = (i < 2 ^ 64) × AllSmall ids

lacks-section_text :
    (prev s : Text) (i : ℕ) → lacks 58 s ≡ true → lacks 58 (section_text prev s i) ≡ true
lacks-section_text prev s i h = ground (arith, h, lacks-digits 58 20 i (omega arith))

section_text-injective :
    (prev s : Text) (i j : ℕ)
    → i < 2 ^ 64
    → j < 2 ^ 64
    → is_major prev s ≡ true
    → section_text prev s i ≡ section_text prev s j
    → i ≡ j
section_text-injective prev s i j h k y e =
    digits_injective 20 i j (omega arith) (omega arith) (ground (arith, y, e))

pub texts-majors_of :
    (prev : Text) (ss : List Text) (ids ids' : List ℕ)
    → length ids ≡ length ids'
    → majors_of prev ss ids ≡ majors_of prev ss ids'
    → texts prev ss ids ≡ texts prev ss ids'
texts-majors_of prev [] ids ids' l e = refl
texts-majors_of prev (s ∷ ss) [] [] l e = refl
texts-majors_of prev (s ∷ ss) [] (j ∷ ids') l e = absurd (omega arith)
texts-majors_of prev (s ∷ ss) (i ∷ ids) [] l e = absurd (omega arith)
texts-majors_of prev (s ∷ ss) (i ∷ ids) (j ∷ ids') l e =
    elim (Bool-cases (is_prefix (codes "reactions") prev)) [
      | inl y ↦ rw y refl
      | inr n ↦ elim (Bool-cases (is_major prev s)) [
        | inl y ↦
            let same : majors_of s ss ids ≡ majors_of s ss ids' = ground (arith, n, y, e) in
            let ids_same : i ≡ j = ground (arith, n, y, e) in
            ground (arith, n, ids_same, texts-majors_of s ss ids ids' (omega arith) same)
        | inr m ↦
            let same : majors_of s ss ids ≡ majors_of s ss ids' = ground (arith, n, m, e) in
            ground (arith, n, m, texts-majors_of s ss ids ids' (omega arith) same)
      ]
    ]

pub majors_of-texts :
    (prev : Text) (ss : List Text) (ids ids' : List ℕ)
    → length ids ≡ length ids'
    → AllLack ss
    → AllSmall ids
    → AllSmall ids'
    → join (texts prev ss ids) ≡ join (texts prev ss ids')
    → majors_of prev ss ids ≡ majors_of prev ss ids'
majors_of-texts prev [] ids ids' l a h k e = refl
majors_of-texts prev (s ∷ ss) [] [] l a h k e = refl
majors_of-texts prev (s ∷ ss) [] (j ∷ ids') l a h k e = absurd (omega arith)
majors_of-texts prev (s ∷ ss) (i ∷ ids) [] l a h k e = absurd (omega arith)
majors_of-texts prev (s ∷ ss) (i ∷ ids) (j ∷ ids') l (a, as') (h, hs) (k, ks) e =
    elim (Bool-cases (is_prefix (codes "reactions") prev)) [
      | inl y ↦ rw y refl
      | inr n ↦
          let tails : section_text prev s i ++ join (texts s ss ids)
              ≡ section_text prev s j ++ join (texts s ss ids') =
            ground (arith, n, e) in
          let (heads, rest) =
            cut (section_text prev s i) (section_text prev s j) (join (texts s ss ids))
              (join (texts s ss ids')) (lacks-section_text prev s i a)
              (lacks-section_text prev s j a) (starts-join (texts s ss ids))
              (starts-join (texts s ss ids')) tails in
          let ih = majors_of-texts s ss ids ids' (omega arith) as' hs ks rest in
          elim (Bool-cases (is_major prev s)) [
            | inl y ↦ ground (arith, n, y, ih, section_text-injective prev s i j h k y heads)
            | inr m ↦ ground (arith, n, m, ih)
          ]
    ]
