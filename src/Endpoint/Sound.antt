-- ===== src/Endpoint/Sound.antt =====
-- winecord-rest.c: the requests that `winecord_rest_run` is able to begin.
use wineberry_discord.Prelude.{
  ℕ, zero, suc, ◌+◌, ◌*◌, ◌≡◌, ◌<◌, ◌≤◌, ◌==◌, ◌&&◌, Bool, true, false, List, [], ◌∷◌, ◌++◌, Option,
  none, some, length, length-append, ltb, if◌then◌else◌, arith, refl, Bool-cases, Option-cases, inl,
  inr,
}
use wineberry_discord.Prelude.Texts.{Text, codes, is_prefix, digits, length-digits-le}
use wineberry_discord.Rest.Key.{Method, Arg, id, text, num, Methods, route_len}
use wineberry_discord.Rest.Key.Fits.{fits, build_key-fits}
use wineberry_discord.Endpoint.{
  Reply, Response, bad_parameter, runs, expect, given, is_set, not_empty, endpoint_len, written,
  printf, begun, is_malformed, rest_run,
}

-- An id is not 0 and a text has a byte.
pub data AreFilled : List Arg → Type 0 where
  all_filled : AreFilled []
  id_filled : (n : ℕ) (args : List Arg) → is_set n ≡ true → AreFilled args → AreFilled (id n ∷ args)
  text_filled :
      (t : Option Text) (args : List Arg)
      → not_empty t ≡ true
      → AreFilled args
      → AreFilled (text t ∷ args)

-- The type of an argument, by the directive: the length of the directive.
abbrev pub directive : Text → Arg → Option ℕ
directive s (id n) = if is_prefix (codes "lu") s then some 2 else none
directive s (text t) = if is_prefix (codes "s") s then some 1 else none
directive s (num n) = if is_prefix (codes "d") s then some 1 else none

abbrev pub prints : ℕ → Text → List Arg → Bool
prints skip [] [] = true
prints skip [] (a ∷ args) = false
prints (suc skip) (c ∷ s) args = prints skip s args
prints zero (c ∷ s) [] = if c == 37 then false else prints 0 s []
prints zero (c ∷ s) (a ∷ args) = elim (c == 37) [
  | true ↦ elim (directive s a) [ none ↦ false | some skip ↦ prints skip s args ]
  | false ↦ prints 0 s (a ∷ args)
]

abbrev pub text_size : List Arg → ℕ
text_size [] = 0
text_size (text (some t) ∷ args) = length t + text_size args
text_size (a ∷ args) = text_size args

-- A format whose directives are those of its arguments, with a key that fits its buffer.
abbrev pub is_fit : Text → List Arg → Bool
is_fit fmt args =
    prints 0 fmt args && (fits fmt args && ltb (length fmt + 20 * length args) route_len)

-- What a call may end as: a check that failed, or a request whose format fits its arguments, all of
-- them filled.
pub data IsSound : Reply → Type 0 where
  is_refused : IsSound bad_parameter
  is_sent :
      (m : Method) (body : Option ℕ) (reason : Option Text) (response : Response) (fmt : Text)
      (args : List Arg)
      → AreFilled args
      → is_fit fmt args ≡ true
      → IsSound (runs m body reason response fmt args)

pub expect-IsSound : (b : Bool) (r : Reply) → (b ≡ true → IsSound r) → IsSound (expect b r)
expect-IsSound true r h = h refl
expect-IsSound false r h = is_refused

pub given-IsSound :
    {A : Type 0} (a : Option A) (f : A → Reply) → ((x : A) → IsSound (f x)) → IsSound (given a f)
given-IsSound none f h = is_refused
given-IsSound (some x) f h = h x

pub ruleset sound_rules =
    (all_filled, id_filled, text_filled, is_refused, is_sent, expect-IsSound, given-IsSound)

-- The texts and the ids of some arguments.
abbrev pub size : List Arg → ℕ
size args = 20 * length args + text_size args

filled-tail : {a : Arg} {args : List Arg} → AreFilled (a ∷ args) → AreFilled args
filled-tail (id_filled n args p h) = h
filled-tail (text_filled t args p h) = h

written-directive :
    (s : Text) {a : Arg} {args : List Arg} (skip : ℕ)
    → AreFilled (a ∷ args)
    → directive s a ≡ some skip
    → (t : Text) × (written s a ≡ some (t, skip)) × (length t + size args ≤ size (a ∷ args))
written-directive s skip (id_filled n args p h) e =
    (digits 20 n, ground (arith, e), ground (arith, length-digits-le 20 n))
written-directive s skip (text_filled none args p h) e = absurd (ground (arith, p))
written-directive s skip (text_filled (some t) args p h) e = (t, ground (arith, e), ground arith)

printf-ok :
    (skip : ℕ) (s : Text) (args : List Arg)
    → AreFilled args
    → prints skip s args ≡ true
    → (out : Text) × (printf skip s args ≡ some out) × (length out ≤ length s + size args)
unfolding printf
printf-ok skip [] [] h p = ([], refl, omega arith)
printf-ok skip [] (a ∷ args) h p = cc
printf-ok (suc skip) (c ∷ s) args h p =
    let (out, e, l) = printf-ok skip s args h (ground (arith, p)) in (out, e, ground (arith, l))
printf-ok zero (c ∷ s) [] h p = elim (Bool-cases (c == 37)) [
  | inl y ↦ absurd (ground (arith, y, p))
  | inr n ↦
      let (out, e, l) = printf-ok 0 s [] h (ground (arith, n, p)) in
      (c ∷ out, ground (arith, n, e), ground (arith, l))
]
printf-ok zero (c ∷ s) (a ∷ args) h p = elim (Bool-cases (c == 37)) [
  | inl y ↦ elim (Option-cases (directive s a)) [
    | inl d ↦ absurd (ground (arith, y, d, p))
    | inr (skip, d) ↦
        let (t, w, k) = written-directive s skip h d in
        let (out, e, l) = printf-ok skip s args (filled-tail h) (ground (arith, y, d, p)) in
        (t ++ out, ground (arith, y, w, e), ground (arith, l, k, length-append t out))
  ]
  | inr n ↦
      let (out, e, l) = printf-ok 0 s (a ∷ args) h (ground (arith, n, p)) in
      (c ∷ out, ground (arith, n, e), ground (arith, l))
]

module _ (methods : Methods) where
  -- A request of a sound format begins, with a URL and a key that fit their buffers.
  pub rest_run-begun :
      (m : Method) (body : Option ℕ) (fmt : Text) (args : List Arg)
      → AreFilled args
      → is_fit fmt args ≡ true
      → is_malformed body ≡ false
      → text_size args ≤ 256
      → (url key : Text) × (rest_run methods m body fmt args ≡ begun m url key)
        × (length url < endpoint_len)
        × (length key < route_len)
  rest_run-begun m body fmt args h s b t =
      let (url, e, l) = printf-ok 0 fmt args h (ground (arith, s)) in
      let (key, k, r) = build_key-fits methods m fmt args (ground (arith, s)) in
      let short : length url < endpoint_len = ground (arith, s, l, t) in
      (url, key, ground (arith, b, e, k, short), short, r)
