-- ===== src/Rest/Key.antt =====
-- winecord-rest_ratelimit.c, `winecord_ratelimiter_build_key`: the key of the bucket of a request, from
-- its method, the format of its endpoint and the arguments of the format.
-- The format is cut at each '/'; that `prev` begins with a word that has no '/' says it of the section.
-- PRIu64 is "lu". The numbers of the methods come from another repository.
pub mod Fits
pub mod Majors
pub mod Shared
pub mod Tests
use wineberry_discord.Prelude.{
  ℕ, ◌≡◌, ◌<◌, ◌==◌, ◌&&◌, ◌||◌, Bool, true, false, List, [], ◌∷◌, ◌++◌, Option, none, some, length,
  ltb, if◌then◌else◌,
}
use wineberry_discord.Prelude.Texts.{Text, codes, is_prefix, digits}

pub data Method : Type 0 where
  get put post patch delete mimepost : Method

-- An argument of a format: of "%lu", "%s" and "%d". A text may be a null pointer.
pub data Arg : Type 0 where
  id : ℕ → Arg
  text : Option Text → Arg
  num : ℕ → Arg

-- `enum http_method`
pub record Methods : Type 0 where
  pub number : Method → ℕ
  pub number_small : (m : Method) → number m < 10
  pub number_injective : (m n : Method) → number m ≡ number n → m ≡ n

-- WINECORD_ROUTE_LEN
abbrev pub route_len : ℕ
route_len = 256

-- The sections of a format after its first byte, that is, after the '/'.
abbrev pub sections_from : Text → Text → List Text
sections_from cur [] = cur ∷ []
sections_from cur (c ∷ s) =
    if c == 47 then cur ∷ sections_from [] s else sections_from (cur ++ c ∷ []) s

abbrev pub sections : Text → List Text
sections [] = [] ∷ []
sections (c ∷ s) = sections_from [] s

-- An argument read where a '%' stands before `s`: the id that the section has then.
abbrev pub arg_as : Text → Arg → ℕ → Option ℕ
arg_as s (id n) id_arg = if is_prefix (codes "lu") s then some n else none
arg_as s (text t) id_arg = if is_prefix (codes "s") s then some id_arg else none
arg_as s (num n) id_arg = if is_prefix (codes "d") s then some id_arg else none

-- The arguments that a section consumes: its last id, and the arguments that are left. `none` is a
-- format that the code does not know, or an argument of another type.
unfoldable pub consume : Text → List Arg → ℕ → Option (ℕ × List Arg)
consume [] args id_arg = some (id_arg, args)
consume (c ∷ s) [] id_arg = if c == 37 then none else consume s [] id_arg
consume (c ∷ s) (a ∷ args) id_arg = elim (c == 37) [
  | true ↦ elim (arg_as s a id_arg) [ none ↦ none | some id_arg' ↦ consume s args id_arg' ]
  | false ↦ consume s (a ∷ args) id_arg
]

-- Whether a section stands for a major parameter, by the section before it.
abbrev pub is_major : Text → Text → Bool
is_major prev s =
    is_prefix s (codes "%lu")
    && (is_prefix (codes "channels") prev || is_prefix (codes "guilds") prev)

-- What is pushed for a section; an id has at most 20 digits.
abbrev pub section_text : Text → Text → ℕ → Text
section_text prev s id_arg = if is_major prev s then digits 20 id_arg else s

-- KEY_PUSH; `none` where the program ends.
unfoldable pub key_push : Text → Text → Option Text
key_push key s =
    let key' = key ++ (58 ∷ s) in if ltb (length key') route_len then some key' else none

unfoldable pub key_sections : Text → Text → List Text → List Arg → Option Text
unfolding key_push
key_sections key prev [] args = some key
key_sections key prev (s ∷ ss) args = elim (is_prefix (codes "reactions") prev) [
  | true ↦ some key
  | false ↦ elim (consume s args 0) [
    | none ↦ none
    | some (id_arg, args') ↦ elim (key_push key (section_text prev s id_arg)) [
      | none ↦ none
      | some key' ↦ key_sections key' s ss args'
    ]
  ]
]

abbrev pub as_post : Method → Method
as_post mimepost = post
as_post m = m

module _ (methods : Methods) where
  -- `winecord_ratelimiter_build_key`
  unfoldable pub build_key : Method → Text → List Arg → Option Text
  unfolding key_sections
  build_key m fmt args = elim (key_push [] (digits 10 (methods.number (as_post m)))) [
    | none ↦ none
    | some key ↦ key_sections key [] (sections fmt) args
  ]
