-- ===== src/Chash/Texts.antt =====
-- A table of numbers by text, by an association list, which meets the interface of chash.h.
use wineberry_discord.Prelude.{
  ℕ, ◌≡◌, ◌↔◌, refl, true, List, [], ◌∷◌, Option, none, some, arith, if◌then◌else◌,
}
use wineberry_discord.Chash.{Chash, is_some}
use wineberry_discord.Rest.{Text, same}

pub same_iff : (a b : Text) → (same a b ≡ true) ↔ (a ≡ b)
same_iff [] [] = ground arith
same_iff [] (b ∷ bs) = ground arith
same_iff (a ∷ xs) [] = ground arith
same_iff (a ∷ xs) (b ∷ bs) = ground (arith, same_iff xs bs)

abbrev pub find : List (Text × ℕ) → Text → Option ℕ
find [] k = none
find ((j, v) ∷ t) k = if same j k then some v else find t k

abbrev pub remove : List (Text × ℕ) → Text → List (Text × ℕ)
remove [] k = []
remove ((j, v) ∷ t) k = if same j k then remove t k else (j, v) ∷ remove t k

pub find-remove :
    (t : List (Text × ℕ)) (k j : Text) → find (remove t k) j ≡ (if same k j then none else find t j)
find-remove [] k j = ground arith
find-remove ((i, v) ∷ t) k j =
    ground (arith, same_iff i k, same_iff i j, same_iff k j, find-remove t k j)

pub find-put :
    (t : List (Text × ℕ)) (k : Text) (v : ℕ) (j : Text)
    → find ((k, v) ∷ remove t k) j ≡ (if same k j then some v else find t j)
find-put t k v j = ground (arith, find-remove t k j)

abbrev pub text_table : Chash Text ℕ same
text_table = record {
  Carrier = List (Text × ℕ);
  init = [];
  contains = λ t k. is_some (find t k);
  lookup = find;
  write = λ t k v. (k, v) ∷ remove t k;
  assign = λ t k v. ((k, v) ∷ remove t k, find t k);
  delete = λ t k. (remove t k, find t k);
  contains_lem = λ t k. refl;
  lookup-init = λ k. refl;
  lookup-write = λ t k v j h. find-put t k v j;
  lookup-assign = find-put;
  assign_frees = λ t k v. refl;
  lookup-delete = find-remove;
  delete_frees = λ t k. refl;
}
