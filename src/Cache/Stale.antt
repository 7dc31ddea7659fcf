-- ===== src/Cache/Stale.antt =====
-- winecord-cache.c: what a lookup finds while a shard is disconnected.
use wineberry_discord.Prelude.{
  get_elem?_exists, get_elem?_in_range, ℕ, zero, suc, ◌≡◌, ◌<◌, ◌∙◌, ◌==◌, Bool, false, List, [],
  ◌∷◌, none, some, length, get_elem?, set, get_elem?-set_self, get_elem?-set_ne, arith, refl,
  Option-cases, Bool-cases, inl, inr, ==_iff,
}
use wineberry_discord.Refcount.{Call}
use wineberry_discord.Anomap.{Anomap}
use wineberry_discord.Cache.{
  Event, ready, resumed, reconnected, disconnected, guild_create, guild_update, guild_delete,
  message_create, message_update, message_delete, collects, Shard, Shards, on_reconnected,
  on_disconnected, on_guild_create, on_guild_update, collect, on_garbage_collection, at_shard, step,
  calculate_shard, get_guild,
}
use wineberry_discord.Cache.History.{AllInRange, handle_all, handle_all-Kept}

-- The event does not make the data of a shard valid again.
abbrev pub Revives : ℕ → Event → Type 0
Revives i (ready j) = i ≡ j
Revives i (resumed j) = i ≡ j
Revives i (reconnected j) = i ≡ j
Revives i _ = ⊥

abbrev pub NoneRevives : ℕ → List Event → Type 0
NoneRevives i [] = Unit
NoneRevives i (e ∷ es) = (¬ Revives i e) × NoneRevives i es

module _ (anomap : Anomap) where
  -- Whether the shard is there and says that its data is not valid.
  abbrev IsStale : Shards anomap → ℕ → Type 0
  IsStale shards i =
      (shard : Shard anomap) × (get_elem? shards i ≡ some shard) × (shard.valid ≡ false)

  abbrev Keeps : (Shard anomap → Shard anomap × List Call) → Type 0
  Keeps f = (shard : Shard anomap) → shard.valid ≡ false → (f shard).0.valid ≡ false

  at_shard-IsStale :
      (shards : Shards anomap) (i j : ℕ) (f : Shard anomap → Shard anomap × List Call)
      {shards' : Shards anomap} {calls : List Call}
      → (i ≡ j → Keeps f)
      → IsStale shards i
      → at_shard anomap shards j f ≡ some (shards', calls)
      → IsStale shards' i
  unfolding at_shard
  at_shard-IsStale shards i j f {shards'} k (shard, e, v) o =
      elim (Option-cases (get_elem? shards j)) [
        | inl n ↦ absurd (ground (arith, n, o))
        | inr (other, m) ↦
            let out : set shards j (f other).0 ≡ shards' = ground (arith, m, o) in
            elim (Bool-cases (i == j)) [
              | inl y ↦
                  let same : i ≡ j = (==_iff i j).0 y in
                  let s : other ≡ shard = ground (arith, m, e, same) in
                  (
                    (f other).0,
                    rw (← out, same)
                        (get_elem?-set_self shards j (f other).0 (get_elem?_in_range shards j m)),
                    k same other (rw s v),
                  )
              | inr n ↦ (
                shard,
                rw (← out) (get_elem?-set_ne shards (f other).0 (λ s. ground (arith, n, s)) ∙ e),
                v,
              )
            ]
      ]

  on_garbage_collection-IsStale :
      (now : ℕ) (shards : Shards anomap) (i : ℕ)
      → IsStale shards i
      → IsStale (on_garbage_collection anomap now shards).0 i
  unfolding on_garbage_collection collect
  on_garbage_collection-IsStale now [] i (shard, e, v) = cc
  on_garbage_collection-IsStale now (s ∷ shards) zero (shard, e, v) =
      ((collect anomap now s).0, refl, ground (arith, e, v))
  on_garbage_collection-IsStale now (s ∷ shards) (suc i) h =
      on_garbage_collection-IsStale now shards i h

  step-IsStale :
      (shards : Shards anomap) (i : ℕ) (e : Event) {shards' : Shards anomap} {calls : List Call}
      → ¬ Revives i e
      → IsStale shards i
      → step anomap shards e ≡ some (shards', calls)
      → IsStale shards' i
  unfolding step on_reconnected on_disconnected on_guild_create on_guild_update
  step-IsStale shards i (ready j) r h o = at_shard-IsStale shards i j _ (λ s. absurd (r s)) h o
  step-IsStale shards i (resumed j) r h o = at_shard-IsStale shards i j _ (λ s. absurd (r s)) h o
  step-IsStale shards i (reconnected j) r h o =
      at_shard-IsStale shards i j _ (λ s. absurd (r s)) h o
  step-IsStale shards i (disconnected j resumable) r h o =
      at_shard-IsStale shards i j _ (λ s shard v. refl) h o
  step-IsStale shards i (guild_create id guild) r h o =
      at_shard-IsStale shards i _ _ (λ s shard v. v) h o
  step-IsStale shards i (guild_update id guild) r h o =
      at_shard-IsStale shards i _ _ (λ s shard v. v) h o
  step-IsStale shards i (guild_delete id) r h o = at_shard-IsStale shards i _ _ (λ s shard v. v) h o
  step-IsStale shards i (message_create guild_id id msg) r h o =
      at_shard-IsStale shards i _ _ (λ s shard v. v) h o
  step-IsStale shards i (message_update guild_id id msg) r h o =
      at_shard-IsStale shards i _ _ (λ s shard v. v) h o
  step-IsStale shards i (message_delete guild_id id) r h o =
      at_shard-IsStale shards i _ _ (λ s shard v. v) h o
  step-IsStale shards i (collects now) {shards'} r h o =
      let out : (on_garbage_collection anomap now shards).0 ≡ shards' = ground (arith, o) in
      rw (← out) (on_garbage_collection-IsStale now shards i h)

  handle_all-IsStale :
      (shards : Shards anomap) (i : ℕ) (es : List Event) {shards' : Shards anomap}
      {calls : List Call}
      → NoneRevives i es
      → IsStale shards i
      → handle_all anomap shards es ≡ some (shards', calls)
      → IsStale shards' i
  unfolding handle_all
  handle_all-IsStale shards i [] {shards'} r h o =
      let out : shards ≡ shards' = ground (arith, o) in rw (← out) h
  handle_all-IsStale shards i (e ∷ es) {shards'} (r, rs) h o =
      elim (Option-cases (step anomap shards e)) [
        | inl n ↦ absurd (ground (arith, n, o))
        | inr ((shards'', calls''), m) ↦ elim (Option-cases (handle_all anomap shards'' es)) [
          | inl n ↦ absurd (ground (arith, m, n, o))
          | inr ((last, calls'), q) ↦
              let out : last ≡ shards' = ground (arith, m, q, o) in
              rw (← out) (
                handle_all-IsStale shards'' i es {calls = calls'} rs
                  (step-IsStale shards i e {calls = calls''} r h m) q)
        ]
      ]

  get_guild-IsStale :
      (shards : Shards anomap) (guild_id : ℕ)
      → IsStale shards (calculate_shard guild_id (length shards))
      → get_guild anomap shards guild_id ≡ some (none, [])
  unfolding get_guild
  get_guild-IsStale shards guild_id (shard, e, v) = ground (arith, e, v)

  disconnected-IsStale :
      (shards : Shards anomap) (i : ℕ) (resumable : Bool) (es : List Event)
      {shards' : Shards anomap} {calls : List Call}
      → i < length shards
      → NoneRevives i es
      → handle_all anomap shards (disconnected i resumable ∷ es) ≡ some (shards', calls)
      → IsStale shards' i
  unfolding step handle_all at_shard on_disconnected
  disconnected-IsStale shards i resumable es {shards'} h r o =
      let (shard, e) = get_elem?_exists shards i h in
      let shard' = (on_disconnected anomap resumable shard).0 in
      let stale : IsStale (set shards i shard') i =
        (shard', get_elem?-set_self shards i shard' h, refl) in
      elim (Option-cases (handle_all anomap (set shards i shard') es)) [
        | inl n ↦ absurd (ground (arith, e, n, o))
        | inr ((last, calls'), q) ↦
            let out : last ≡ shards' = ground (arith, e, q, o) in
            rw (← out) (handle_all-IsStale (set shards i shard') i es {calls = calls'} r stale q)
      ]

  -- From a disconnection of a shard of the cache to the next event that says that the shard is ready,
  -- resumed or reconnected, whatever else happens: every event whose shard is there is handled, and a
  -- lookup of any guild of the shard finds none and claims nothing.
  pub disconnected-get_guild :
      (shards : Shards anomap) (i guild_id : ℕ) (resumable : Bool) (es : List Event)
      → AllInRange (length shards) (disconnected i resumable ∷ es)
      → NoneRevives i es
      → calculate_shard guild_id (length shards) ≡ i
      → (shards' : Shards anomap) × (calls : List Call) × (handle_all anomap shards
            (disconnected i resumable ∷ es)
          ≡ some (shards', calls))
        × (get_guild anomap shards' guild_id ≡ some (none, []))
  disconnected-get_guild shards i guild_id resumable es h r c =
      let (shards', calls, o, q, k) =
        handle_all-Kept anomap 0 shards (disconnected i resumable ∷ es) h in
      let same : calculate_shard guild_id (length shards') ≡ i = rw k c in
      (
        shards',
        calls,
        o,
        get_guild-IsStale shards' guild_id
            (rw same (disconnected-IsStale shards i resumable es {calls = calls} h.0 r o)),
      )
