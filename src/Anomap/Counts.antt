-- ===== src/Anomap/Counts.antt =====
-- How often the entries of a map have a pointer, and how the changes that a map reports follow it.
use wineberry_discord.Prelude.{
  ℕ, suc, ◌+◌, ◌≡◌, ◌≤◌, ◌<◌, ◌==◌, List, [], ◌∷◌, ◌++◌, Option, none, some, ltb, take, drop,
  length, if◌then◌else◌, arith, refl, Bool-cases, Option-cases, inl, inr, take-append-drop,
}
use wineberry_discord.Chash.{find, is_some}
use wineberry_discord.Anomap.{
  count_before, Anomap, Entries, Change, inserted, updated, deleted, IsSortedFrom, put_entry,
  erase_entry, deletions,
}

abbrev pub hit : ℕ → ℕ → ℕ
hit p v = if v == p then 1 else 0

abbrev hit_opt : ℕ → Option ℕ → ℕ
hit_opt p none = 0
hit_opt p (some v) = hit p v

abbrev pub count_value : ℕ → Entries → ℕ
count_value p [] = 0
count_value p ((k, v) ∷ es) = hit p v + count_value p es

abbrev pub removed : ℕ → List Change → ℕ
removed p [] = 0
removed p (inserted v ∷ cs) = removed p cs
removed p (updated w v ∷ cs) = hit p w + removed p cs
removed p (deleted w ∷ cs) = hit p w + removed p cs

abbrev pub added : ℕ → List Change → ℕ
added p [] = 0
added p (inserted v ∷ cs) = hit p v + added p cs
added p (updated w v ∷ cs) = hit p v + added p cs
added p (deleted w ∷ cs) = added p cs

pub count_before-le : (k : ℕ) (es : Entries) → count_before k es ≤ length es
count_before-le k [] = omega arith
count_before-le k ((j, w) ∷ es) = ground (arith, count_before-le k es)

pub find_before : (es : Entries) (n k : ℕ) → k < n → IsSortedFrom n es → find es k ≡ none
find_before [] n k h s = refl
find_before ((j, w) ∷ es) n k h (q, s) =
    ground (arith, h, q, find_before es (suc j) k (omega arith) s)

count_value-put_entry :
    (es : Entries) (n p k v : ℕ)
    → IsSortedFrom n es
    → count_value p (put_entry k v es) + hit_opt p (find es k) ≡ count_value p es + hit p v
count_value-put_entry [] n p k v s = ground arith
count_value-put_entry ((j, w) ∷ es) n p k v (q, s) = elim (Bool-cases (ltb k j)) [
  | inl y ↦ ground (arith, y, find_before es (suc j) k (ground (arith, y)) s)
  | inr y ↦ ground (arith, y, count_value-put_entry es (suc j) p k v s)
]

count_value-erase_entry :
    (es : Entries) (p k : ℕ)
    → count_value p (erase_entry k es) + hit_opt p (find es k) ≡ count_value p es
count_value-erase_entry [] p k = refl
count_value-erase_entry ((j, w) ∷ es) p k = ground (arith, count_value-erase_entry es p k)

removed-deletions : (es : Entries) (p : ℕ) → removed p (deletions es) ≡ count_value p es
removed-deletions [] p = refl
removed-deletions ((k, v) ∷ es) p = ground (arith, removed-deletions es p)

added-deletions : (es : Entries) (p : ℕ) → added p (deletions es) ≡ 0
added-deletions [] p = refl
added-deletions ((k, v) ∷ es) p = added-deletions es p

count_value-append :
    (es fs : Entries) (p : ℕ) → count_value p (es ++ fs) ≡ count_value p es + count_value p fs
count_value-append [] fs p = omega arith
count_value-append ((k, v) ∷ es) fs p = ground (arith, count_value-append es fs p)

module _ (anomap : Anomap) (p : ℕ) where
  -- The entries of a map with a pointer move by what the map reports.
  abbrev pub Moves : anomap.Carrier → anomap.Carrier × List Change → Type 0
  Moves m (m', changes) =
      count_value p (anomap.entries m') + removed p changes
      ≡ count_value p (anomap.entries m) + added p changes

  pub insert-Moves : (m : anomap.Carrier) (k v : ℕ) → Moves m (anomap.insert m k v)
  insert-Moves m k v = elim (Option-cases (find (anomap.entries m) k)) [
    | inl e ↦ ground (
      arith,
      e,
      anomap.entries-insert m k v,
      anomap.insert_changes m k v,
      count_value-put_entry (anomap.entries m) 0 p k v (anomap.entries_sorted m),
    )
    | inr (w, e) ↦ ground (arith, e, anomap.entries-insert m k v, anomap.insert_changes m k v)
  ]

  pub upsert-Moves : (m : anomap.Carrier) (k v : ℕ) → Moves m (anomap.upsert m k v)
  upsert-Moves m k v = elim (Option-cases (find (anomap.entries m) k)) [
    | inl e ↦ ground (
      arith,
      e,
      anomap.entries-upsert m k v,
      anomap.upsert_changes m k v,
      count_value-put_entry (anomap.entries m) 0 p k v (anomap.entries_sorted m),
    )
    | inr (w, e) ↦ ground (
      arith,
      e,
      anomap.entries-upsert m k v,
      anomap.upsert_changes m k v,
      count_value-put_entry (anomap.entries m) 0 p k v (anomap.entries_sorted m),
    )
  ]

  pub delete-Moves : (m : anomap.Carrier) (k : ℕ) → Moves m (anomap.delete m k)
  delete-Moves m k = elim (Option-cases (find (anomap.entries m) k)) [
    | inl e ↦ ground (
      arith,
      e,
      anomap.entries-delete m k,
      anomap.delete-delete_changes m k,
      count_value-erase_entry (anomap.entries m) p k,
    )
    | inr (w, e) ↦ ground (
      arith,
      e,
      anomap.entries-delete m k,
      anomap.delete-delete_changes m k,
      count_value-erase_entry (anomap.entries m) p k,
    )
  ]

  pub clear-Moves : (m : anomap.Carrier) → Moves m (anomap.clear m)
  clear-Moves m = ground (
    arith,
    anomap.entries-clear m,
    anomap.clear_changes m,
    removed-deletions (anomap.entries m) p,
    added-deletions (anomap.entries m) p,
  )

  pub delete_range-Moves :
      (m : anomap.Carrier) (b : ℕ)
      → b < length (anomap.entries m)
      → Moves m (anomap.delete_range m 0 b)
  delete_range-Moves m b h =
      let es = anomap.entries m in
      let cut : count_value p es
          ≡ count_value p (take (suc b) es) + count_value p (drop (suc b) es) =
        rw (← count_value-append (take (suc b) es) (drop (suc b) es) p, take-append-drop (suc b) es)
          refl in
      ground (
        arith,
        cut,
        anomap.entries-delete_range m 0 b (omega arith) h,
        anomap.delete_range_changes m 0 b (omega arith) h,
        removed-deletions (take (suc b) es) p,
        added-deletions (take (suc b) es) p,
      )

  pub added-upsert : (m : anomap.Carrier) (k v : ℕ) → added p (anomap.upsert m k v).1 ≡ hit p v
  added-upsert m k v = ground (arith, anomap.upsert_changes m k v)

  pub added-delete : (m : anomap.Carrier) (k : ℕ) → added p (anomap.delete m k).1 ≡ 0
  added-delete m k = ground (arith, anomap.delete-delete_changes m k)

  pub added-clear : (m : anomap.Carrier) → added p (anomap.clear m).1 ≡ 0
  added-clear m = rw (anomap.clear_changes m) (added-deletions (anomap.entries m) p)

  pub added-insert :
      (m : anomap.Carrier) (k v : ℕ)
      → added p (anomap.insert m k v).1 + (if is_some (anomap.getval m k) then hit p v else 0)
        ≡ hit p v
  added-insert m k v = ground (arith, anomap.insert_changes m k v, anomap.getval_lem m k)
