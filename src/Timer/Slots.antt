-- ===== src/Timer/Slots.antt =====
-- A priority queue of timers that meets the interface: slots by id, of which the first is 1.
use wineberry_discord.Prelude.{
  ℕ, zero, suc, ◌≡◌, ◌==◌, ◌&&◌, true, false, List, [], ◌∷◌, ◌++◌, Option, none, some,
  if◌then◌else◌, arith, refl, length, get_elem?, set, Bool-cases, inl, inr, subst, ==_iff,
}
use wineberry_discord.Prelude.Int.{ℤ}
use wineberry_discord.Chash.{is_some}
use wineberry_discord.Timer.{Timer, PriorityQueue, is_before}

abbrev pub Slots : Type 0
Slots = List (Option (ℤ × Timer))

abbrev pub join : Option (Option (ℤ × Timer)) → Option (ℤ × Timer)
join none = none
join (some slot) = slot

abbrev pub get : Slots → ℕ → Option (ℤ × Timer)
get slots zero = none
get slots (suc i) = join (get_elem? slots i)

abbrev pub put : Slots → ℕ → Option (ℤ × Timer) → Slots
put slots zero slot = slots
put slots (suc i) slot = set slots i slot

abbrev pub earlier : Option (ℤ × Timer) → Option (ℕ × ℤ × Timer) → Option (ℕ × ℤ × Timer)
earlier none none = none
earlier none (some (i, u, other)) = some (suc i, u, other)
earlier (some (t, timer)) none = some (1, t, timer)
earlier (some (t, timer)) (some (i, u, other)) =
    if is_before u t then some (suc i, u, other) else some (1, t, timer)

abbrev pub peek : Slots → Option (ℕ × ℤ × Timer)
peek [] = none
peek (slot ∷ slots) = earlier slot (peek slots)

-- No slot triggers before a time.
abbrev NoneBefore : ℤ → Slots → Type 0
NoneBefore t slots =
    (j : ℕ) (u : ℤ) (other : Timer) → get slots j ≡ some (u, other) → is_before u t ≡ false

-- That a timer is the first of some slots.
abbrev IsFirst : Option (ℕ × ℤ × Timer) → Slots → Type 0
IsFirst none slots = (j : ℕ) → get slots j ≡ none
IsFirst (some (i, t, timer)) slots = (get slots i ≡ some (t, timer)) × NoneBefore t slots

NoneBefore-cons :
    (slot : Option (ℤ × Timer)) (slots : Slots) (t : ℤ)
    → ((u : ℤ) (other : Timer) → slot ≡ some (u, other) → is_before u t ≡ false)
    → NoneBefore t slots
    → NoneBefore t (slot ∷ slots)
NoneBefore-cons slot slots t h hs zero u other e = cc
NoneBefore-cons slot slots t h hs (suc zero) u other e = h u other e
NoneBefore-cons slot slots t h hs (suc (suc j)) u other e = hs (suc j) u other e

get-cons :
    (slot : Option (ℤ × Timer)) (slots : Slots) (i : ℕ) {t : ℤ} {timer : Timer}
    → get slots i ≡ some (t, timer)
    → get (slot ∷ slots) (suc i) ≡ some (t, timer)
get-cons slot slots zero e = cc
get-cons slot slots (suc i) e = e

NoneBefore-later :
    (slots : Slots) (t u : ℤ) → is_before u t ≡ false → NoneBefore u slots → NoneBefore t slots
NoneBefore-later slots t u b h j v other e = ground (arith, b, h j v other e)

cons-IsFirst : (slots : Slots) → IsFirst none slots → IsFirst none (none ∷ slots)
cons-IsFirst slots h zero = refl
cons-IsFirst slots h (suc zero) = refl
cons-IsFirst slots h (suc (suc j)) = h (suc j)

none-IsFirst : IsFirst none []
none-IsFirst zero = refl
none-IsFirst (suc j) = refl

earlier-IsFirst :
    (slot : Option (ℤ × Timer)) (head : Option (ℕ × ℤ × Timer)) (slots : Slots)
    → IsFirst head slots
    → IsFirst (earlier slot head) (slot ∷ slots)
earlier-IsFirst none none slots h = cons-IsFirst slots h
earlier-IsFirst none (some (i, u, other)) slots (g, h) =
    (get-cons none slots i g, NoneBefore-cons none slots u (λ v o e. cc) h)
earlier-IsFirst (some (t, timer)) none slots h = (
  refl,
  NoneBefore-cons (some (t, timer)) slots t (λ v o e. ground (arith, e))
      (λ j v o e. absurd (ground (arith, h j, e))),
)
earlier-IsFirst (some (t, timer)) (some (i, u, other)) slots (g, h) =
    elim (Bool-cases (is_before u t)) [
      | inl y ↦ rw y (
        get-cons (some (t, timer)) slots i g,
        NoneBefore-cons (some (t, timer)) slots u (λ v o e. ground (arith, y, e)) h,
      )
      | inr n ↦ rw n (
        refl,
        NoneBefore-cons (some (t, timer)) slots t (λ v o e. ground (arith, e))
            (NoneBefore-later slots t u n h),
      )
    ]

peek-IsFirst : (slots : Slots) → IsFirst (peek slots) slots
peek-IsFirst [] = none-IsFirst
peek-IsFirst (slot ∷ slots) = earlier-IsFirst slot (peek slots) slots (peek-IsFirst slots)

pub peek_gets :
    (slots : Slots) {i : ℕ} {t : ℤ} {timer : Timer}
    → peek slots ≡ some (i, t, timer)
    → get slots i ≡ some (t, timer)
peek_gets slots {i} {t} {timer} e =
    (subst (λ head. IsFirst head slots) {y = some (i, t, timer)} e (peek-IsFirst slots)).0

pub peek_first :
    (slots : Slots) {i : ℕ} {t : ℤ} {timer : Timer} (j : ℕ) {u : ℤ} {other : Timer}
    → peek slots ≡ some (i, t, timer)
    → get slots j ≡ some (u, other)
    → is_before u t ≡ false
peek_first slots {i} {t} {timer} j {u} {other} e g =
    (subst (λ head. IsFirst head slots) {y = some (i, t, timer)} e (peek-IsFirst slots)).1 j u other
      g

pub peek_none : (slots : Slots) (j : ℕ) → peek slots ≡ none → get slots j ≡ none
peek_none slots j e = (subst (λ head. IsFirst head slots) {y = none} e (peek-IsFirst slots)) j

pub get-length : (slots : Slots) → get slots (suc (length slots)) ≡ none
get-length [] = refl
get-length (none ∷ slots) = get-length slots
get-length (some slot ∷ slots) = get-length slots

pub get-push :
    (slots : Slots) (slot : ℤ × Timer) (j : ℕ)
    → get (slots ++ some slot ∷ []) j ≡ (if suc (length slots) == j then some slot else get slots j)
get-push slots slot zero = ground arith
get-push [] slot (suc zero) = refl
get-push [] slot (suc (suc j)) = ground arith
get-push (s ∷ slots) slot (suc zero) = ground arith
get-push (s ∷ slots) slot (suc (suc j)) = ground (arith, get-push slots slot (suc j))

get-put :
    (slots : Slots) (i : ℕ) (slot : Option (ℤ × Timer)) (j : ℕ)
    → is_some (get slots i) ≡ true
    → get (put slots i slot) j ≡ (if i == j then slot else get slots j)
get-put slots zero slot j h = cc
get-put [] (suc i) slot j h = cc
get-put (s ∷ slots) (suc zero) slot zero h = ground arith
get-put (s ∷ slots) (suc zero) slot (suc zero) h = ground arith
get-put (s ∷ slots) (suc zero) slot (suc (suc j)) h = ground arith
get-put (s ∷ slots) (suc (suc i)) slot zero h = ground arith
get-put (s ∷ slots) (suc (suc i)) slot (suc zero) h = ground arith
get-put (s ∷ slots) (suc (suc i)) slot (suc (suc j)) h =
    ground (arith, get-put slots (suc i) slot (suc j) h)

unfoldable pub update : Slots → ℕ → ℤ → Timer → Slots
update slots i t timer = if is_some (get slots i) then put slots i (some (t, timer)) else slots

unfoldable pub delete : Slots → ℕ → Slots
delete slots i = if is_some (get slots i) then put slots i none else slots

pub get-update :
    (slots : Slots) (i : ℕ) (t : ℤ) (timer : Timer) (j : ℕ)
    → get (update slots i t timer) j
      ≡ (if (i == j) && is_some (get slots i) then some (t, timer) else get slots j)
unfolding update
get-update slots i t timer j = elim (Bool-cases (is_some (get slots i))) [
  | inl y ↦ ground (arith, y, get-put slots i (some (t, timer)) j y)
  | inr n ↦ ground (arith, n)
]

pub get-delete :
    (slots : Slots) (i j : ℕ) → get (delete slots i) j ≡ (if i == j then none else get slots j)
unfolding delete
get-delete slots i j = elim (Bool-cases (is_some (get slots i))) [
  | inl y ↦ ground (arith, y, get-put slots i none j y)
  | inr n ↦ ground (arith, n, (==_iff i j).0)
]

abbrev pub slots_queue : PriorityQueue
slots_queue = record {
  Carrier = Slots;
  get = get;
  peek = peek;
  push = λ slots t timer. (slots ++ some (t, timer) ∷ [], suc (length slots));
  update = update;
  del = delete;
  get-zero = λ slots. refl;
  peek_gets = peek_gets;
  peek_first = peek_first;
  peek_none = peek_none;
  push_fresh = λ slots t timer. get-length slots;
  push_pos = λ slots t timer. omega arith;
  get-push = λ slots t timer j. get-push slots (t, timer) j;
  get-update = get-update;
  get-del = get-delete;
}
