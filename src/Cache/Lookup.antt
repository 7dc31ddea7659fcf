-- ===== src/Cache/Lookup.antt =====
-- winecord-cache.c: what a lookup of a guild finds after an event.
use wineberry_discord.Prelude.{
  get_elem?_in_range, ℕ, suc, ◌≡◌, ap, ◌==◌, Bool, true, false, List, [], ◌∷◌, Option, none, some,
  length, get_elem?, set, length-set, get_elem?-set_self, get_elem?-set_ne, if◌then◌else◌, arith,
  refl, Option-cases, Bool-cases, inl, inr, ==_iff,
}
use wineberry_discord.Chash.{find}
use wineberry_discord.Refcount.{Call, adds_internal, decrs, claims}
use wineberry_discord.Anomap.{Anomap, Entries, IsSortedFrom, put_entry, erase_entry}
use wineberry_discord.Anomap.Counts.{find_before}
use wineberry_discord.Cache.{
  guild_create, guild_update, guild_delete, Shard, Shards, guild_cleanup, on_guild_create,
  on_guild_update, at_shard, step, calculate_shard, get_guild,
}

find-put_entry :
    (es : Entries) (k v j : ℕ) → find (put_entry k v es) j ≡ (if k == j then some v else find es j)
find-put_entry [] k v j = ground arith
find-put_entry ((i, w) ∷ es) k v j = ground (arith, find-put_entry es k v j)

find-erase_entry :
    (es : Entries) (n k j : ℕ)
    → IsSortedFrom n es
    → find (erase_entry k es) j ≡ (if k == j then none else find es j)
find-erase_entry [] n k j s = ground arith
find-erase_entry ((i, w) ∷ es) n k j (q, s) = elim (Bool-cases (i == k)) [
  | inl y ↦ ground (arith, y, find_before es (suc i) k (ground (arith, y)) s)
  | inr y ↦ ground (arith, y, find-erase_entry es (suc i) k j s)
]

-- The answer of a shard about a guild: the guild, claimed once, if the data is valid.
abbrev pub answer : Bool → Option ℕ → Option ℕ × List Call
answer false guild = (none, [])
answer true none = (none, [])
answer true (some guild) = (some guild, claims guild ∷ [])

abbrev pub or_else : Option ℕ → ℕ → ℕ
or_else none b = b
or_else (some a) b = a

-- The visit that the cache had of a guild ends.
abbrev pub ends : Option ℕ → List Call
ends none = []
ends (some guild) = decrs guild ∷ []

module _ (anomap : Anomap) where
  get_guild-answer :
      (shards : Shards anomap) (j : ℕ) {shard : Shard anomap}
      → get_elem? shards (calculate_shard j (length shards)) ≡ some shard
      → get_guild anomap shards j ≡ some (answer shard.valid (anomap.getval shard.guild_map j))
  unfolding get_guild
  get_guild-answer shards j {shard} e = ground (arith, e)

  get_guild-moved :
      (shards shards' : Shards anomap) (j : ℕ)
      → length shards' ≡ length shards
      → get_elem? shards' (calculate_shard j (length shards))
        ≡ get_elem? shards (calculate_shard j (length shards))
      → get_guild anomap shards' j ≡ get_guild anomap shards j
  unfolding get_guild
  get_guild-moved shards shards' j l e =
      let same : get_elem? shards' (calculate_shard j (length shards'))
          ≡ get_elem? shards (calculate_shard j (length shards)) =
        rw l e in
      elim (Option-cases (get_elem? shards (calculate_shard j (length shards)))) [
        | inl n ↦ ground (arith, same, n)
        | inr (shard, m) ↦ ground (arith, same, m)
      ]

  -- A shard that differs in one guild, put in its place.
  get_guild-set :
      (shards : Shards anomap) (id j : ℕ) (o : Option ℕ) {shard : Shard anomap}
      (shard' : Shard anomap)
      → get_elem? shards (calculate_shard id (length shards)) ≡ some shard
      → shard'.valid ≡ shard.valid
      → anomap.getval shard'.guild_map j ≡ (if id == j then o else anomap.getval shard.guild_map j)
      → get_guild anomap (set shards (calculate_shard id (length shards)) shard') j
        ≡ (if id == j then some (answer shard.valid o) else get_guild anomap shards j)
  get_guild-set shards id j o {shard} shard' e v g =
      let i = calculate_shard id (length shards) in
      let k = calculate_shard j (length shards) in
      let shards' = set shards i shard' in
      let l = length-set shards i shard' in
      elim (Bool-cases (i == k)) [
        | inl y ↦
            let same : i ≡ k = (==_iff i k).0 y in
            let here : get_elem? shards' (calculate_shard j (length shards')) ≡ some shard' =
              rw (l, ← same) (get_elem?-set_self shards i shard' (get_elem?_in_range shards i e)) in
            let before : get_elem? shards k ≡ some shard = rw (← same) e in
            ground (arith, v, g, get_guild-answer shards' j here, get_guild-answer shards j before)
        | inr n ↦
            let moved : get_elem? shards' k ≡ get_elem? shards k =
              get_elem?-set_ne shards shard' (λ s. ground (arith, n, s)) in
            let other : (id == j) ≡ false = elim (Bool-cases (id == j)) [
              | inl y ↦
                  let same : id ≡ j = (==_iff id j).0 y in
                  absurd (ground (arith, n, ap (λ x. calculate_shard x (length shards)) same))
              | inr z ↦ z
            ] in
            rw other (get_guild-moved shards shards' j l moved)
      ]

  -- The creation of a guild: a copy of it is given a visit; lookups of its id answer with the guild
  -- that was there before, and with the copy only if there was none; lookups of other guilds answer as
  -- before.
  pub guild_create-get_guild :
      (shards : Shards anomap) (id guild j : ℕ) {shard : Shard anomap}
      → get_elem? shards (calculate_shard id (length shards)) ≡ some shard
      → (shards' : Shards anomap) × (step anomap shards (guild_create id guild)
          ≡ some (shards', adds_internal guild guild_cleanup true ∷ []))
        × (get_guild anomap shards' j ≡ (
            if id == j
            then some (answer shard.valid (some (or_else (anomap.getval shard.guild_map id) guild)))
            else get_guild anomap shards j))
  unfolding step at_shard on_guild_create
  guild_create-get_guild shards id guild j {shard} e =
      let i = calculate_shard id (length shards) in
      let m = anomap.insert shard.guild_map id guild in
      let shard' = record shard { guild_map = m.0 } in
      let es = anomap.entries shard.guild_map in
      (
        set shards i shard',
        ground (arith, e, anomap.insert_changes shard.guild_map id guild),
        get_guild-set shards id j (some (or_else (anomap.getval shard.guild_map id) guild)) shard' e
            refl
            (ground (
              arith,
              anomap.entries-insert shard.guild_map id guild,
              anomap.getval_lem m.0 j,
              anomap.getval_lem shard.guild_map j,
              anomap.getval_lem shard.guild_map id,
              find-put_entry es id guild j,
            )),
      )

  -- The deletion of a guild: the visit of the guild ends; lookups of its id find none, and lookups of
  -- other guilds answer as before.
  pub guild_delete-get_guild :
      (shards : Shards anomap) (id j : ℕ) {shard : Shard anomap}
      → get_elem? shards (calculate_shard id (length shards)) ≡ some shard
      → (shards' : Shards anomap) × (step anomap shards (guild_delete id)
          ≡ some (shards', ends (anomap.getval shard.guild_map id)))
        × (get_guild anomap shards' j
            ≡ (if id == j then some (none, []) else get_guild anomap shards j))
  unfolding step at_shard
  guild_delete-get_guild shards id j {shard} e =
      let m = anomap.delete shard.guild_map id in
      let shard' = record shard { guild_map = m.0 } in
      let es = anomap.entries shard.guild_map in
      (
        set shards (calculate_shard id (length shards)) shard',
        ground (
          arith,
          e,
          anomap.delete-delete_changes shard.guild_map id,
          anomap.getval_lem shard.guild_map id,
        ),
        ground (
          arith,
          get_guild-set shards id j none shard' e refl (
              ground (
                arith,
                anomap.entries-delete shard.guild_map id,
                anomap.getval_lem m.0 j,
                anomap.getval_lem shard.guild_map j,
                find-erase_entry es 0 id j (anomap.entries_sorted shard.guild_map),
              )),
        ),
      )

  -- An update of a guild: the copy is given a visit, the visit of the guild that was there ends;
  -- lookups of its id answer with the copy, and lookups of other guilds as before.
  pub guild_update-get_guild :
      (shards : Shards anomap) (id guild j : ℕ) {shard : Shard anomap}
      → get_elem? shards (calculate_shard id (length shards)) ≡ some shard
      → (shards' : Shards anomap) × (step anomap shards (guild_update id guild)
          ≡ some (
            shards',
            adds_internal guild guild_cleanup true ∷ ends (anomap.getval shard.guild_map id),
          ))
        × (get_guild anomap shards' j ≡ (
            if id == j then some (answer shard.valid (some guild)) else get_guild anomap shards j))
  unfolding step at_shard on_guild_update
  guild_update-get_guild shards id guild j {shard} e =
      let i = calculate_shard id (length shards) in
      let m = anomap.upsert shard.guild_map id guild in
      let shard' = record shard { guild_map = m.0 } in
      let es = anomap.entries shard.guild_map in
      (
        set shards i shard',
        ground (
          arith,
          e,
          anomap.upsert_changes shard.guild_map id guild,
          anomap.getval_lem shard.guild_map id,
        ),
        get_guild-set shards id j (some guild) shard' e refl (
            ground (
              arith,
              anomap.entries-upsert shard.guild_map id guild,
              anomap.getval_lem m.0 j,
              anomap.getval_lem shard.guild_map j,
              find-put_entry es id guild j,
            )),
      )
