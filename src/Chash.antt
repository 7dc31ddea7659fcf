-- ===== src/Chash.antt =====
-- The hash table of chash.h, which is not part of the repository, as an interface: the operations
-- that winecord-refcount.c, winecord-rest_ratelimit.c and winecord-messagecommands.c call, and what
-- they rely on. `eqb` is the table's `*_TABLE_COMPARE`. A value that the table hands to its
-- `*_TABLE_FREE_VALUE` is returned beside the new table.
pub mod Texts
use wineberry_discord.Prelude.{
  ℕ, ◌≡◌, refl, Bool, true, false, List, [], ◌∷◌, Option, none, some, ◌==◌, arith, if◌then◌else◌,
}

abbrev pub is_some {ℓ} : {A : Type ℓ} → Option A → Bool
is_some none = false
is_some (some a) = true

pub record Chash (K V : Type 0) (eqb : K → K → Bool) : Type 1 where
  pub Carrier : Type 0
  pub init : Carrier
  pub contains : Carrier → K → Bool
  -- `none` where chash_lookup would end the program.
  pub lookup : Carrier → K → Option V
  -- A store through the pointer that chash_lookup_bucket returns.
  pub write : Carrier → K → V → Carrier
  pub assign : Carrier → K → V → Carrier × Option V
  pub delete : Carrier → K → Carrier × Option V
  pub contains_lem : (t : Carrier) (k : K) → contains t k ≡ is_some (lookup t k)
  pub lookup-init : (k : K) → lookup init k ≡ none
  pub lookup-write :
      (t : Carrier) (k : K) (v : V) (j : K)
      → contains t k ≡ true
      → lookup (write t k v) j ≡ (if eqb k j then some v else lookup t j)
  pub lookup-assign :
      (t : Carrier) (k : K) (v : V) (j : K)
      → lookup (assign t k v).0 j ≡ (if eqb k j then some v else lookup t j)
  pub assign_frees : (t : Carrier) (k : K) (v : V) → (assign t k v).1 ≡ lookup t k
  pub lookup-delete :
      (t : Carrier) (k : K) (j : K)
      → lookup (delete t k).0 j ≡ (if eqb k j then none else lookup t j)
  pub delete_frees : (t : Carrier) (k : K) → (delete t k).1 ≡ lookup t k

-- A table of numbers' values by an association list, which meets the interface.
module _ {V : Type 0} where
  abbrev pub find : List (ℕ × V) → ℕ → Option V
  find [] k = none
  find ((j, v) ∷ t) k = if j == k then some v else find t k

  abbrev pub remove : List (ℕ × V) → ℕ → List (ℕ × V)
  remove [] k = []
  remove ((j, v) ∷ t) k = if j == k then remove t k else (j, v) ∷ remove t k

  pub find-remove :
      (t : List (ℕ × V)) (k j : ℕ) → find (remove t k) j ≡ (if k == j then none else find t j)
  find-remove [] k j = ground arith
  find-remove ((i, v) ∷ t) k j = ground (arith, find-remove t k j)

  pub find-put :
      (t : List (ℕ × V)) (k : ℕ) (v : V) (j : ℕ)
      → find ((k, v) ∷ remove t k) j ≡ (if k == j then some v else find t j)
  find-put t k v j = ground (arith, find-remove t k j)

abbrev pub assoc_table : (V : Type 0) → Chash ℕ V ◌==◌
assoc_table V = record {
  Carrier = List (ℕ × V);
  init = [];
  contains = λ t k. is_some (find t k);
  lookup = find;
  write = λ t k v. (k, v) ∷ remove t k;
  assign = λ t k v. ((k, v) ∷ remove t k, find t k);
  delete = λ t k. (remove t k, find t k);
  contains_lem = λ t k. refl;
  lookup-init = λ k. refl;
  lookup-write = λ t k v j h. find-put t k v j;
  lookup-assign = find-put;
  assign_frees = λ t k v. refl;
  lookup-delete = find-remove;
  delete_frees = λ t k. refl;
}
