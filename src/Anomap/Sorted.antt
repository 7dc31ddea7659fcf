-- ===== src/Anomap/Sorted.antt =====
-- Sorted lists of entries, which meet the interface of anomap.h.
use wineberry_discord.Prelude.{
  ℕ, zero, suc, ◌+◌, ◌-◌, ap, Bool, true, false, ◌≡◌, ◌≤◌, ◌==◌, [], ◌∷◌, ◌++◌, ltb, take, drop,
  if◌then◌else◌, arith, refl, Bool-cases, inl, inr,
}
use wineberry_discord.Chash.{find, is_some}
use wineberry_discord.Anomap.{
  Anomap, Entries, inserted, IsSortedFrom, put_entry, erase_entry, count_before, put_change,
  deletions, delete_changes,
}

IsSortedFrom-weaken : (es : Entries) (n m : ℕ) → n ≤ m → IsSortedFrom m es → IsSortedFrom n es
IsSortedFrom-weaken [] n m h s = tt
IsSortedFrom-weaken ((k, v) ∷ es) n m h (p, s) = (omega arith, s)

pub put_entry-IsSortedFrom :
    (es : Entries) (n k v : ℕ) → n ≤ k → IsSortedFrom n es → IsSortedFrom n (put_entry k v es)
put_entry-IsSortedFrom [] n k v h s = (h, tt)
put_entry-IsSortedFrom ((j, w) ∷ es) n k v h (p, s) = elim (Bool-cases (ltb k j)) [
  | inl y ↦ rw y (h, (ground (arith, y), s))
  | inr y ↦ elim (Bool-cases (j == k)) [
    | inl z ↦ rw (y, z) (h, IsSortedFrom-weaken es (suc k) (suc j) (ground (arith, z)) s)
    | inr z ↦ rw (y, z) (p, put_entry-IsSortedFrom es (suc j) k v (ground (arith, y, z)) s)
  ]
]

pub erase_entry-IsSortedFrom :
    (es : Entries) (n k : ℕ) → IsSortedFrom n es → IsSortedFrom n (erase_entry k es)
erase_entry-IsSortedFrom [] n k s = tt
erase_entry-IsSortedFrom ((j, w) ∷ es) n k (p, s) = elim (Bool-cases (j == k)) [
  | inl z ↦ rw z (IsSortedFrom-weaken es n (suc j) (omega arith) s)
  | inr z ↦ rw z (p, erase_entry-IsSortedFrom es (suc j) k s)
]

drop-IsSortedFrom : (es : Entries) (n b : ℕ) → IsSortedFrom n es → IsSortedFrom n (drop b es)
drop-IsSortedFrom es n zero s = s
drop-IsSortedFrom [] n (suc b) s = tt
drop-IsSortedFrom ((j, w) ∷ es) n (suc b) (p, s) =
    drop-IsSortedFrom es n b (IsSortedFrom-weaken es n (suc j) (omega arith) s)

pub take-drop-IsSortedFrom :
    (es : Entries) (n a b : ℕ) → a ≤ b → IsSortedFrom n es → IsSortedFrom n (take a es ++ drop b es)
take-drop-IsSortedFrom es n zero b h s = drop-IsSortedFrom es n b s
take-drop-IsSortedFrom [] n (suc a) zero h s = absurd (omega arith)
take-drop-IsSortedFrom [] n (suc a) (suc b) h s = tt
take-drop-IsSortedFrom ((j, w) ∷ es) n (suc a) zero h s = absurd (omega arith)
take-drop-IsSortedFrom ((j, w) ∷ es) n (suc a) (suc b) h (p, s) =
    (p, take-drop-IsSortedFrom es (suc j) a b (omega arith) s)

abbrev pub Sorted : Type 0
Sorted = (es : Entries) × IsSortedFrom 0 es

abbrev put_if_new : Sorted → ℕ → ℕ → Bool → Sorted
put_if_new (es, s) k v true = (es, s)
put_if_new (es, s) k v false = (put_entry k v es, put_entry-IsSortedFrom es 0 k v (omega arith) s)

abbrev cut : Sorted → ℕ → ℕ → Sorted
cut (es, s) a b =
    let c = a + (suc b - a) in
    (take a es ++ drop c es, take-drop-IsSortedFrom es 0 a c (omega arith) s)

pub put_if_new_lem :
    (m : Sorted) (k v : ℕ) (b : Bool)
    → (put_if_new m k v b).0 ≡ (if b then m.0 else put_entry k v m.0)
put_if_new_lem (es, s) k v true = refl
put_if_new_lem (es, s) k v false = refl

pub cut_lem : (m : Sorted) (a b : ℕ) → a ≤ b → (cut m a b).0 ≡ take a m.0 ++ drop (suc b) m.0
cut_lem (es, s) a b h =
    let e : a + (suc b - a) ≡ suc b = omega arith in ap (λ c. take a es ++ drop c es) e

abbrev pub sorted_map : Anomap
sorted_map = record {
  Carrier = Sorted;
  entries = λ m. m.0;
  init = ([], tt);
  getval = λ m k. find m.0 k;
  insert = λ m k v. (
    put_if_new m k v (is_some (find m.0 k)),
    if is_some (find m.0 k) then [] else inserted v ∷ [],
  );
  upsert = λ m k v. (
    (put_entry k v m.0, put_entry-IsSortedFrom m.0 0 k v (omega arith) m.1),
    put_change (find m.0 k) v ∷ [],
  );
  delete = λ m k.
      ((erase_entry k m.0, erase_entry-IsSortedFrom m.0 0 k m.1), delete_changes (find m.0 k));
  clear = λ m. (([], tt), deletions m.0);
  index_of = λ m k. count_before k m.0;
  delete_range = λ m a b. (cut m a b, deletions (drop a (take (suc b) m.0)));
  entries_sorted = λ m. m.1;
  entries-init = refl;
  getval_lem = λ m k. refl;
  entries-insert = λ m k v. put_if_new_lem m k v (is_some (find m.0 k));
  insert_changes = λ m k v. refl;
  entries-upsert = λ m k v. refl;
  upsert_changes = λ m k v. refl;
  entries-delete = λ m k. refl;
  delete-delete_changes = λ m k. refl;
  entries-clear = λ m. refl;
  clear_changes = λ m. refl;
  index_of_lem = λ m k. refl;
  entries-delete_range = λ m a b h l. cut_lem m a b h;
  delete_range_changes = λ m a b h l. refl;
}
