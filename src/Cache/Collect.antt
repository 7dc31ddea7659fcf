-- ===== src/Cache/Collect.antt =====
-- winecord-cache.c: which messages the garbage collection leaves.
use wineberry_discord.Prelude.{
  ℕ, subst, suc, ◌+◌, ◌-◌, ◌/◌, ◌^◌, ◌≡◌, ◌<◌, ◌≤◌, ◌==◌, ltb, [], ◌∷◌, none, drop, length,
  if◌then◌else◌, arith, refl, Bool-cases, inl, inr,
}
use wineberry_discord.Chash.{find}
use wineberry_discord.Anomap.{Anomap, Entries, IsSortedFrom, count_before}
use wineberry_discord.Anomap.Counts.{find_before, count_before-le}
use wineberry_discord.Cache.{Shard, collect, delete_before, epoch}

count_before_first : (es : Entries) (n k : ℕ) → k ≤ n → IsSortedFrom n es → count_before k es ≡ 0
count_before_first [] n k h s = refl
count_before_first ((j, w) ∷ es) n k h (q, s) =
    ground (arith, h, q, count_before_first es (suc j) k (omega arith) s)

find-drop :
    (es : Entries) (n k id : ℕ)
    → IsSortedFrom n es
    → find (drop (count_before k es) es) id ≡ (if ltb id k then none else find es id)
find-drop [] n k id s = ground arith
find-drop ((j, w) ∷ es) n k id (q, s) = elim (Bool-cases (ltb j k)) [
  | inl y ↦ ground (arith, y, find-drop es (suc j) k id s)
  | inr y ↦ elim (Bool-cases (ltb id k)) [
    | inl z ↦ ground (
      arith,
      y,
      z,
      count_before_first es (suc j) k (ground (arith, y)) s,
      find_before es (suc j) id (ground (arith, y, z)) s,
    )
    | inr z ↦ ground (arith, y, z, count_before_first es (suc j) k (ground (arith, y)) s)
  ]
]

-- A message is older than ten minutes by the time in its id.
delete_before_old :
    (now id : ℕ)
    → epoch + 600000 ≤ now
    → now < epoch + 600000 + 2 ^ 42
    → ltb id (delete_before now) ≡ ltb (id / 2 ^ 22 + epoch + 600000) now
delete_before_old now id h l = ground (arith, h, l)

module _ (anomap : Anomap) where
  -- The garbage collection of a shard, at a time within 2 ^ 42 milliseconds of ten minutes after the
  -- first id: a message whose id was made more than ten minutes ago is gone, and every other id has the
  -- message that it had.
  pub collect-getval :
      (shard : Shard anomap) (now id : ℕ)
      → epoch + 600000 ≤ now
      → now < epoch + 600000 + 2 ^ 42
      → anomap.getval (collect anomap now shard).0.msg_map id
        ≡ (if ltb (id / 2 ^ 22 + epoch + 600000) now then none else anomap.getval shard.msg_map id)
  unfolding collect
  collect-getval shard now id h l =
      let k = delete_before now in
      let es = anomap.entries shard.msg_map in
      let idx = anomap.index_of shard.msg_map k in
      let r = anomap.delete_range shard.msg_map 0 (idx - 1) in
      let found : find (drop idx es) id ≡ (if ltb id k then none else find es id) =
        rw (anomap.index_of_lem shard.msg_map k)
          (find-drop es 0 k id (anomap.entries_sorted shard.msg_map)) in
      let old = delete_before_old now id h l in
      elim (Bool-cases (idx == 0)) [
        | inl z ↦
            let z' : idx ≡ 0 = ground (arith, z) in
            let found' : find es id ≡ (if ltb id k then none else find es id) =
              subst (λ i. find (drop i es) id ≡ (if ltb id k then none else find es id)) {y = 0} z'
                found in
            ground (arith, z, found', old, anomap.getval_lem shard.msg_map id)
        | inr n ↦
            let back : suc (idx - 1) ≡ idx = ground (arith, n) in
            let in_range : idx - 1 < length es =
              ground (arith, n, anomap.index_of_lem shard.msg_map k, count_before-le k es) in
            let rest : anomap.entries r.0 ≡ drop idx es =
              subst (λ i. anomap.entries r.0 ≡ drop i es) {y = idx} back
                (anomap.entries-delete_range shard.msg_map 0 (idx - 1) (omega arith) in_range) in
            ground (
              arith,
              n,
              found,
              old,
              rest,
              anomap.getval_lem shard.msg_map id,
              anomap.getval_lem r.0 id,
            )
      ]
