-- ===== src/Rest/Key/Shared.antt =====
-- winecord-rest_ratelimit.c: when two requests of an endpoint share a key.
use wineberry_discord.Prelude.{
  ℕ, ◌≡◌, ◌^◌, ◌<◌, ◌==◌, ◌↔◌, true, List, [], ◌∷◌, ◌++◌, some, length, ltb, arith, refl, ap, sym,
  ◌∙◌, Bool-cases, Option-cases, inl, inr, subst, append_assoc, append-nil,
}
use wineberry_discord.Prelude.Texts.{
  Text, codes, is_prefix, digits, digits_injective, lacks, lacks-digits, lacks-append,
}
use wineberry_discord.Rest.Key.{
  Method, Arg, id, text, num, Methods, sections, sections_from, arg_as, consume, section_text,
  key_push, key_sections, route_len, as_post, build_key,
}
use wineberry_discord.Rest.Key.Fits.{consumes, fits, build_key-fits}
use wineberry_discord.Rest.Key.Majors.{
  drawn, texts, majors, join, starts-join, cut, AllLack, AllSmall, texts-majors_of, majors_of-texts,
}

-- The ids among some arguments are 64-bit integers.
abbrev pub Args64 : List Arg → Type 0
Args64 [] = Unit
Args64 (id n ∷ args) = (n < 2 ^ 64) × Args64 args
Args64 (text t ∷ args) = Args64 args
Args64 (num n ∷ args) = Args64 args

arg_as-Small :
    (s : Text) (a : Arg) (args : List Arg) (i : ℕ)
    → i < 2 ^ 64
    → Args64 (a ∷ args)
    → (j : ℕ) → arg_as s a i ≡ some j
    → (j < 2 ^ 64) × Args64 args
arg_as-Small s (id n) args i h (k, ks) j e = (ground (arith, k, e), ks)
arg_as-Small s (text t) args i h ks j e = (ground (arith, h, e), ks)
arg_as-Small s (num n) args i h ks j e = (ground (arith, h, e), ks)

consume-Small :
    (s : Text) (args : List Arg) (i : ℕ)
    → i < 2 ^ 64
    → Args64 args
    → (j : ℕ) (args' : List Arg) → consume s args i ≡ some (j, args')
    → (j < 2 ^ 64) × Args64 args'
unfolding consume
consume-Small [] args i h ks j args' e =
    let same : args ≡ args' = ground (arith, e) in (ground (arith, h, e), subst Args64 same ks)
consume-Small (c ∷ s) [] i h ks j args' e = elim (Bool-cases (c == 37)) [
  | inl y ↦ absurd (ground (arith, y, e))
  | inr n ↦ consume-Small s [] i h ks j args' (ground (arith, n, e))
]
consume-Small (c ∷ s) (a ∷ args) i h ks j args' e = elim (Bool-cases (c == 37)) [
  | inl y ↦ elim (Option-cases (arg_as s a i)) [
    | inl o ↦ absurd (ground (arith, y, o, e))
    | inr (k, o) ↦
        let (small, rest) = arg_as-Small s a args i h ks k o in
        consume-Small s args k small rest j args' (ground (arith, y, o, e))
  ]
  | inr n ↦ consume-Small s (a ∷ args) i h ks j args' (ground (arith, n, e))
]

length-drawn :
    (ss : List Text) (args : List Arg)
    → consumes ss args ≡ true
    → length (drawn ss args) ≡ length ss
length-drawn [] args c = refl
length-drawn (s ∷ ss) args c = elim (Option-cases (consume s args 0)) [
  | inl e ↦ absurd (ground (arith, c, e))
  | inr ((i, args'), e) ↦ ground (arith, e, length-drawn ss args' (ground (arith, c, e)))
]

drawn-cons :
    (s : Text) (ss : List Text) (args args' : List Arg) (i : ℕ)
    → consume s args 0 ≡ some (i, args')
    → drawn (s ∷ ss) args ≡ i ∷ drawn ss args'
drawn-cons s ss args args' i e = ground (arith, e)

drawn-AllSmall : (ss : List Text) (args : List Arg) → Args64 args → AllSmall (drawn ss args)
drawn-AllSmall [] args ks = tt
drawn-AllSmall (s ∷ ss) args ks = elim (Option-cases (consume s args 0)) [
  | inl e ↦
      let none_drawn : drawn (s ∷ ss) args ≡ [] = ground (arith, e) in
      subst AllSmall (sym none_drawn) tt
  | inr ((i, args'), e) ↦
      let (small, rest) = consume-Small s args 0 (omega arith) ks i args' e in
      subst AllSmall (sym (drawn-cons s ss args args' i e)) (small, drawn-AllSmall ss args' rest)
]

sections_from-AllLack :
    (cur s : Text) → lacks 58 cur ≡ true → lacks 58 s ≡ true → AllLack (sections_from cur s)
sections_from-AllLack cur [] h k = (h, tt)
sections_from-AllLack cur (c ∷ s) h k = elim (Bool-cases (c == 47)) [
  | inl y ↦ rw y (h, sections_from-AllLack [] s refl (ground (arith, k)))
  | inr n ↦ rw n (
      sections_from-AllLack (cur ++ c ∷ []) s (ground (arith, h, k, lacks-append 58 cur (c ∷ [])))
        (ground (arith, k)))
]

sections-AllLack : (fmt : Text) → lacks 58 fmt ≡ true → AllLack (sections fmt)
sections-AllLack [] h = (refl, tt)
sections-AllLack (c ∷ s) h = sections_from-AllLack [] s refl (ground (arith, h))

key_sections-join :
    (ss : List Text) (key prev : Text) (args : List Arg) (key' : Text)
    → key_sections key prev ss args ≡ some key'
    → key' ≡ key ++ join (texts prev ss (drawn ss args))
unfolding key_sections
key_sections-join [] key prev args key' e = ground (arith, e, append-nil key)
key_sections-join (s ∷ ss) key prev args key' e = elim (Option-cases (consume s args 0)) [
  | inl f ↦ elim (Bool-cases (is_prefix (codes "reactions") prev)) [
    | inl y ↦ ground (arith, y, f, e, append-nil key)
    | inr n ↦ absurd (ground (arith, n, f, e))
  ]
  | inr ((i, args'), f) ↦ elim (Bool-cases (is_prefix (codes "reactions") prev)) [
    | inl y ↦ ground (arith, y, f, e, append-nil key)
    | inr n ↦ elim (Bool-cases (ltb (length (key ++ (58 ∷ section_text prev s i))) route_len)) [
      | inl l ↦
          let pushed = key ++ (58 ∷ section_text prev s i) in
          let rest = join (texts s ss (drawn ss args')) in
          let split : key' ≡ pushed ++ rest =
            key_sections-join ss pushed s args' key' (ground (arith, n, f, l, e)) in
          ground (arith, n, f, split, append_assoc key (58 ∷ section_text prev s i) rest)
      | inr l ↦ absurd (ground (arith, n, f, l, e))
    ]
  ]
]

key_join : Text → List Arg → Text
key_join fmt args = join (texts [] (sections fmt) (drawn (sections fmt) args))

module _ (methods : Methods) where
  build_key-join :
      (m : Method) (fmt : Text) (args : List Arg) (key : Text)
      → build_key methods m fmt args ≡ some key
      → key ≡ 58 ∷ (digits 10 (methods.number (as_post m)) ++ key_join fmt args)
  unfolding build_key key_push key_join
  build_key-join m fmt args key e =
      let head = 58 ∷ digits 10 (methods.number (as_post m)) in
      elim (Bool-cases (ltb (length head) route_len)) [
        | inl y ↦ key_sections-join (sections fmt) head [] args key (ground (arith, y, e))
        | inr n ↦ absurd (ground (arith, n, e))
      ]

  same_method : (m n : Method) → digits 10 (methods.number m) ≡ digits 10 (methods.number n) → m ≡ n
  same_method m n e = methods.number_injective m n (
      digits_injective 10 (methods.number m) (methods.number n)
        (ground (arith, methods.number_small m)) (ground (arith, methods.number_small n)) e)

  both :
      (m n : Method) {r r' : Text}
      → m ≡ n
      → r ≡ r'
      → 58 ∷ (digits 10 (methods.number m) ++ r) ≡ 58 ∷ (digits 10 (methods.number n) ++ r')
  both m n same e = rw same (rw e refl)

  -- Two requests of an endpoint whose format has no colon, whose ids are 64-bit integers and whose
  -- keys fit their buffer share a key exactly when they have the same method, a multipart POST being a
  -- POST, and the same major parameters.
  pub build_key_iff :
      (m n : Method) (fmt : Text) (args args' : List Arg)
      → lacks 58 fmt ≡ true
      → fits fmt args ≡ true
      → fits fmt args' ≡ true
      → Args64 args
      → Args64 args'
      → (build_key methods m fmt args ≡ build_key methods n fmt args')
        ↔ ((as_post m ≡ as_post n) × (majors fmt args ≡ majors fmt args'))
  unfolding key_join
  build_key_iff m n fmt args args' h f f' k k' =
      let number = methods.number in
      let lack = sections-AllLack fmt h in
      let (key, p, q) = build_key-fits methods m fmt args f in
      let (key', p', q') = build_key-fits methods n fmt args' f' in
      let parts = build_key-join m fmt args key p in
      let parts' = build_key-join n fmt args' key' p' in
      let ids = drawn (sections fmt) args in
      let ids' = drawn (sections fmt) args' in
      let lengths : length ids ≡ length ids' =
        length-drawn (sections fmt) args (ground (arith, f))
        ∙ sym (length-drawn (sections fmt) args' (ground (arith, f'))) in
      (
        λ e.
            let tails : digits 10 (number (as_post m)) ++ key_join fmt args
                ≡ digits 10 (number (as_post n)) ++ key_join fmt args' =
              ground (arith, p, p', parts, parts', e) in
            let (heads, rest) =
              cut (digits 10 (number (as_post m))) (digits 10 (number (as_post n)))
                (key_join fmt args) (key_join fmt args')
                (lacks-digits 58 10 (number (as_post m)) (omega arith))
                (lacks-digits 58 10 (number (as_post n)) (omega arith))
                (starts-join (texts [] (sections fmt) ids))
                (starts-join (texts [] (sections fmt) ids')) tails in
            (
              same_method (as_post m) (as_post n) heads,
              majors_of-texts [] (sections fmt) ids ids' lengths lack
                  (drawn-AllSmall (sections fmt) args k) (drawn-AllSmall (sections fmt) args' k')
                  rest,
            ),
        λ (same, e).
            let rest : key_join fmt args ≡ key_join fmt args' =
              ap join (texts-majors_of [] (sections fmt) ids ids' lengths e) in
            p ∙ (ap some (parts ∙ (both (as_post m) (as_post n) same rest ∙ sym parts')) ∙ sym p'),
      )
