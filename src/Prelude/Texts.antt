-- ===== src/Prelude/Texts.antt =====
-- Texts as lists of their bytes, and the decimal digits of a number.
use Prim.Native.Char.{code}
use Prim.Native.String.{String}
use Prim.Native.Nat.{ℕ, zero, suc, ◌+◌, ◌-◌, ◌*◌, ◌/◌, ◌%◌, ◌≤◌, ◌<◌}
use mathlib.Core.Path.{◌≡◌, refl, ap, sym, ◌∙◌}
use mathlib.Core.Bool.{Bool, true, false, not, ◌&&◌}
use mathlib.Core.List.{List, [], ◌∷◌, ◌++◌}
use mathlib.Core.Logic.{inl, inr}
use native.Mathlib.Omega.{arith}
use wineberry_discord.Prelude.Tests.{ltb, ◌==◌, if◌then◌else◌, Bool-cases}
use wineberry_discord.Prelude.Lists.{length, length-append}

abbrev pub Text : Type 0
Text = List ℕ

-- The bytes of an ASCII text. `String` has its own `[]` and `∷`.
abbrev pub codes : String → Text
codes String.[] = []
codes (String.◌∷◌ c s) = code c ∷ codes s

-- `!strncmp(prefix, s, strlen(prefix))`
abbrev pub is_prefix : Text → Text → Bool
is_prefix [] s = true
is_prefix (c ∷ cs) [] = false
is_prefix (c ∷ cs) (d ∷ s) = c == d && is_prefix cs s

-- The decimal digits of a number below 10 ^ fuel.
unfoldable pub digits : ℕ → ℕ → Text
digits zero n = []
digits (suc fuel) n =
    let more = digits fuel (n / 10) in
    if ltb n 10 then (48 + n) ∷ [] else more ++ (48 + n % 10) ∷ []

value : Text → ℕ → ℕ
value [] acc = acc
value (c ∷ cs) acc = value cs (acc * 10 + (c - 48))

value-append : (s : Text) (c acc : ℕ) → value (s ++ c ∷ []) acc ≡ value s acc * 10 + (c - 48)
unfolding value
value-append [] c acc = refl
value-append (d ∷ s) c acc = value-append s c (acc * 10 + (d - 48))

abbrev pub pow_10 : ℕ → ℕ
pow_10 zero = 1
pow_10 (suc fuel) = 10 * pow_10 fuel

value-digits : (fuel n : ℕ) → n < pow_10 fuel → value (digits fuel n) 0 ≡ n
unfolding digits value
value-digits zero n h = omega arith
value-digits (suc fuel) n h = elim (Bool-cases (ltb n 10)) [
  | inl y ↦ ground (arith, y)
  | inr y ↦ ground (
    arith,
    y,
    value-append (digits fuel (n / 10)) (48 + n % 10) 0,
    value-digits fuel (n / 10) (omega arith),
  )
]

-- Numbers with the same digits are the same.
pub digits_injective :
    (fuel n m : ℕ) → n < pow_10 fuel → m < pow_10 fuel → digits fuel n ≡ digits fuel m → n ≡ m
digits_injective fuel n m h k e =
    sym (value-digits fuel n h) ∙ (ap (λ s. value s 0) e ∙ value-digits fuel m k)

-- No byte of a text is another one.
abbrev pub lacks : ℕ → Text → Bool
lacks c [] = true
lacks c (d ∷ s) = not (d == c) && lacks c s

pub lacks-append : (c : ℕ) (s t : Text) → lacks c (s ++ t) ≡ lacks c s && lacks c t
lacks-append c [] t = refl
lacks-append c (d ∷ s) t = ground (arith, lacks-append c s t)

pub lacks-digits : (c fuel n : ℕ) → 57 < c → lacks c (digits fuel n) ≡ true
unfolding digits
lacks-digits c zero n h = refl
lacks-digits c (suc fuel) n h = ground (
  arith,
  lacks-digits c fuel (n / 10) h,
  lacks-append c (digits fuel (n / 10)) ((48 + n % 10) ∷ []),
)

pub length-digits-le : (fuel n : ℕ) → length (digits fuel n) ≤ fuel
unfolding digits
length-digits-le zero n = omega arith
length-digits-le (suc fuel) n = ground (
  arith,
  length-digits-le fuel (n / 10),
  length-append (digits fuel (n / 10)) ((48 + n % 10) ∷ []),
)
