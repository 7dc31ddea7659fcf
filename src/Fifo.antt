-- ===== src/Fifo.antt =====
-- The intrusive queue of queue.h, which is not part of the repository, as an interface: the macros
-- that the rate limiter and the requestor use, over the numbers of the queued objects, and what they
-- rely on. QUEUE_MOVE leaves `empty` behind. A loop that takes the head of a local queue until it
-- is empty is a recursion on `to_list`.
use wineberry_discord.Prelude.{
  ℕ, ◌≡◌, refl, ◌==◌, List, [], ◌∷◌, ◌++◌, Option, none, some, if◌then◌else◌, arith,
}

abbrev pub first : List ℕ → Option ℕ
first [] = none
first (r ∷ rs) = some r

-- The list without the first `r`.
abbrev pub erase : ℕ → List ℕ → List ℕ
erase r [] = []
erase r (s ∷ rs) = if s == r then rs else s ∷ erase r rs

pub record Fifo : Type 1 where
  pub Carrier : Type 0
  -- QUEUE_INIT
  pub empty : Carrier
  pub to_list : Carrier → List ℕ
  -- QUEUE_HEAD; `none` if QUEUE_EMPTY
  pub head? : Carrier → Option ℕ
  -- QUEUE_INSERT_HEAD, QUEUE_INSERT_TAIL, QUEUE_REMOVE
  pub insert_head : ℕ → Carrier → Carrier
  pub insert_tail : ℕ → Carrier → Carrier
  pub remove : ℕ → Carrier → Carrier
  pub to_list-empty : to_list empty ≡ []
  pub head?_lem : (q : Carrier) → head? q ≡ first (to_list q)
  pub to_list-insert_head : (r : ℕ) (q : Carrier) → to_list (insert_head r q) ≡ r ∷ to_list q
  pub to_list-insert_tail : (r : ℕ) (q : Carrier) → to_list (insert_tail r q) ≡ to_list q ++ r ∷ []
  pub to_list-remove : (r : ℕ) (q : Carrier) → to_list (remove r q) ≡ erase r (to_list q)

-- Taking the head out leaves the tail.
pub remove_head :
    (fifo : Fifo) (q : fifo.Carrier) {r : ℕ} {rs : List ℕ}
    → fifo.to_list q ≡ r ∷ rs
    → fifo.to_list (fifo.remove r q) ≡ rs
remove_head fifo q {r} h = ground (arith, h, fifo.to_list-remove r q)

-- The interface is met by lists.
abbrev pub list_fifo : Fifo
list_fifo = record {
  Carrier = List ℕ;
  empty = [];
  to_list = λ q. q;
  head? = first;
  insert_head = λ r q. r ∷ q;
  insert_tail = λ r q. q ++ r ∷ [];
  remove = erase;
  to_list-empty = refl;
  head?_lem = λ q. refl;
  to_list-insert_head = λ r q. refl;
  to_list-insert_tail = λ r q. refl;
  to_list-remove = λ r q. refl;
}
