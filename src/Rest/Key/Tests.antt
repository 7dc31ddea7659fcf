-- ===== src/Rest/Key/Tests.antt =====
-- Keys of some requests, and the theorem about them at them.
use wineberry_discord.Prelude.{
  ℕ, zero, suc, ◌≡◌, ◌↔◌, ◌<◌, Bool, true, false, List, [], ◌∷◌, Option, none, some, arith, refl,
  ◌==◌, if◌then◌else◌, sym, ap, ◌∙◌,
}
use wineberry_discord.Prelude.Texts.{Text, codes}
use wineberry_discord.Rest.Key.{
  Method, get, put, post, patch, delete, mimepost, Arg, id, text, num, Methods, as_post, build_key,
}
use wineberry_discord.Rest.Key.Majors.{majors}
use wineberry_discord.Rest.Key.Shared.{build_key_iff}

abbrev pub number : Method → ℕ
number delete = 1
number get = 2
number post = 3
number mimepost = 4
number patch = 5
number put = 6

abbrev pub method_of : ℕ → Method
method_of n =
    if n == 1
    then delete
    else if n == 2
    then get
    else if n == 3
    then post
    else if n == 4
    then mimepost
    else if n == 5
    then patch
    else put

pub method_of-number : (m : Method) → method_of (number m) ≡ m
method_of-number get = refl
method_of-number put = refl
method_of-number post = refl
method_of-number patch = refl
method_of-number delete = refl
method_of-number mimepost = refl

pub number_small : (m : Method) → number m < 10
number_small get = omega arith
number_small put = omega arith
number_small post = omega arith
number_small patch = omega arith
number_small delete = omega arith
number_small mimepost = omega arith

abbrev pub numbered : Methods
numbered = record {
  number = number;
  number_small = number_small;
  number_injective = λ m n e. sym (method_of-number m) ∙ (ap method_of e ∙ method_of-number n);
}

abbrev messages : Text
messages = codes "/channels/%lu/messages/%lu"

-- Only the id of the channel is in the key.
message_key :
    build_key numbered get messages (id 41 ∷ id 7 ∷ []) ≡ some (codes ":2:channels:41:messages:%lu")
unfolding build_key wineberry_discord.Rest.Key.consume wineberry_discord.Rest.Key.key_push
    wineberry_discord.Rest.Key.key_sections wineberry_discord.Prelude.Texts.digits
message_key = refl

-- The routes of the reactions of a message share a key.
reactions_key :
    build_key numbered put
      (codes "/channels/%lu/messages/%lu/reactions/%s/@me")
      (id 41 ∷ id 7 ∷ text none ∷ [])
    ≡ some (codes ":6:channels:41:messages:%lu:reactions")
unfolding build_key wineberry_discord.Rest.Key.consume wineberry_discord.Rest.Key.key_push
    wineberry_discord.Rest.Key.key_sections wineberry_discord.Prelude.Texts.digits
reactions_key = refl

build_key_iff_example :
    (build_key numbered post messages (id 41 ∷ id 7 ∷ [])
      ≡ build_key numbered mimepost messages (id 41 ∷ id 8 ∷ []))
    ↔ ((as_post post ≡ as_post mimepost)
        × (majors messages (id 41 ∷ id 7 ∷ []) ≡ majors messages (id 41 ∷ id 8 ∷ [])))
unfolding wineberry_discord.Rest.Key.consume
build_key_iff_example =
    build_key_iff numbered post mimepost messages (id 41 ∷ id 7 ∷ []) (id 41 ∷ id 8 ∷ []) refl refl
      refl (omega arith, (omega arith, tt)) (omega arith, (omega arith, tt))
