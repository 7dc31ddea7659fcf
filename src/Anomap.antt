-- ===== src/Anomap.antt =====
-- The ordered map of anomap.h, which is not part of the repository, as an interface: the operations
-- that winecord-cache.c calls, from keys to pointers, and what it relies on. An operation returns the
-- changes that the map reports to its `on_item_changed` beside the new map.
pub mod Sorted
pub mod Counts
use wineberry_discord.Prelude.{
  ℕ, suc, ◌+◌, ◌≡◌, ◌≤◌, ◌<◌, ◌==◌, List, [], ◌∷◌, ◌++◌, Option, none, some, map, ltb, take, drop,
  length, if◌then◌else◌,
}
use wineberry_discord.Chash.{find, is_some}

pub data Change : Type 0 where
  inserted : ℕ → Change
  updated : ℕ → ℕ → Change
  deleted : ℕ → Change

abbrev pub Entries : Type 0
Entries = List (ℕ × ℕ)

abbrev pub IsSortedFrom : ℕ → Entries → Type 0
IsSortedFrom n [] = Unit
IsSortedFrom n ((k, v) ∷ es) = (n ≤ k) × IsSortedFrom (suc k) es

abbrev pub put_entry : ℕ → ℕ → Entries → Entries
put_entry k v [] = (k, v) ∷ []
put_entry k v ((j, w) ∷ es) =
    if ltb k j
    then (k, v) ∷ (j, w) ∷ es
    else (if j == k then (k, v) ∷ es else (j, w) ∷ put_entry k v es)

abbrev pub erase_entry : ℕ → Entries → Entries
erase_entry k [] = []
erase_entry k ((j, w) ∷ es) = if j == k then es else (j, w) ∷ erase_entry k es

-- How many keys are before one.
abbrev pub count_before : ℕ → Entries → ℕ
count_before k [] = 0
count_before k ((j, w) ∷ es) = if ltb j k then suc (count_before k es) else count_before k es

abbrev pub put_change : Option ℕ → ℕ → Change
put_change none v = inserted v
put_change (some w) v = updated w v

abbrev pub deletions : Entries → List Change
deletions [] = []
deletions ((k, v) ∷ es) = deleted v ∷ deletions es

abbrev pub delete_changes : Option ℕ → List Change
delete_changes none = []
delete_changes (some v) = deleted v ∷ []

pub record Anomap : Type 1 where
  pub Carrier : Type 0
  pub entries : Carrier → Entries
  -- anomap_create
  pub init : Carrier
  -- anomap_do with anomap_getval, anomap_insert, anomap_upsert, anomap_delete
  pub getval : Carrier → ℕ → Option ℕ
  pub insert : Carrier → ℕ → ℕ → Carrier × List Change
  pub upsert : Carrier → ℕ → ℕ → Carrier × List Change
  pub delete : Carrier → ℕ → Carrier × List Change
  pub clear : Carrier → Carrier × List Change
  -- The position of a key, or where it would stand.
  pub index_of : Carrier → ℕ → ℕ
  -- From a position to another, both included.
  pub delete_range : Carrier → ℕ → ℕ → Carrier × List Change
  pub entries_sorted : (m : Carrier) → IsSortedFrom 0 (entries m)
  pub entries-init : entries init ≡ []
  pub getval_lem : (m : Carrier) (k : ℕ) → getval m k ≡ find (entries m) k
  pub entries-insert :
      (m : Carrier) (k v : ℕ)
      → entries (insert m k v).0
        ≡ (if is_some (find (entries m) k) then entries m else put_entry k v (entries m))
  pub insert_changes :
      (m : Carrier) (k v : ℕ)
      → (insert m k v).1 ≡ (if is_some (find (entries m) k) then [] else inserted v ∷ [])
  pub entries-upsert :
      (m : Carrier) (k v : ℕ) → entries (upsert m k v).0 ≡ put_entry k v (entries m)
  pub upsert_changes :
      (m : Carrier) (k v : ℕ) → (upsert m k v).1 ≡ put_change (find (entries m) k) v ∷ []
  pub entries-delete : (m : Carrier) (k : ℕ) → entries (delete m k).0 ≡ erase_entry k (entries m)
  pub delete-delete_changes :
      (m : Carrier) (k : ℕ) → (delete m k).1 ≡ delete_changes (find (entries m) k)
  pub entries-clear : (m : Carrier) → entries (clear m).0 ≡ []
  pub clear_changes : (m : Carrier) → (clear m).1 ≡ deletions (entries m)
  pub index_of_lem : (m : Carrier) (k : ℕ) → index_of m k ≡ count_before k (entries m)
  pub entries-delete_range :
      (m : Carrier) (a b : ℕ)
      → a ≤ b
      → b < length (entries m)
      → entries (delete_range m a b).0 ≡ take a (entries m) ++ drop (suc b) (entries m)
  pub delete_range_changes :
      (m : Carrier) (a b : ℕ)
      → a ≤ b
      → b < length (entries m)
      → (delete_range m a b).1 ≡ deletions (drop a (take (suc b) (entries m)))
