-- ===== src/Cache/History.antt =====
-- winecord-cache.c: histories of the cache.
use wineberry_discord.Prelude.{
  ℕ, zero, suc, ◌+◌, ◌≡◌, ◌<◌, ap, ◌∙◌, true, List, [], ◌∷◌, ◌++◌, Option, none, some, length,
  get_elem?, get_elem?_exists, set, length-set, arith, refl,
}
use wineberry_discord.Refcount.{Call}
use wineberry_discord.Refcount.Ledger.{total, visits_ended}
use wineberry_discord.Anomap.{Anomap}
use wineberry_discord.Anomap.Counts.{insert-Moves, upsert-Moves, delete-Moves}
use wineberry_discord.Cache.{
  Event, ready, resumed, reconnected, disconnected, guild_create, guild_update, guild_delete,
  message_create, message_update, message_delete, collects, Shard, Shards, collect,
  on_garbage_collection, at_shard, step, cache_enable, calculate_shard,
}
use wineberry_discord.Cache.Balance.{
  visits_given, total-append, held, Balances, put_msgs-Balances, on_reconnected-Balances,
  on_disconnected-Balances, lost_guild, on_guild_create-Balances, on_guild_update-Balances,
  on_guild_delete-Balances, collect-Balances,
}

-- The shard that an event names is there.
abbrev pub InRange : ℕ → Event → Type 0
InRange n (ready i) = i < n
InRange n (resumed i) = i < n
InRange n (reconnected i) = i < n
InRange n (disconnected i resumable) = i < n
InRange n _ = 0 < n

abbrev pub AllInRange : ℕ → List Event → Type 0
AllInRange n [] = Unit
AllInRange n (e ∷ es) = InRange n e × AllInRange n es

module _ (anomap : Anomap) where
  -- The handlers of a list of events, one after the other, with all their calls.
  unfoldable pub handle_all : Shards anomap → List Event → Option (Shards anomap × List Call)
  handle_all shards [] = some (shards, [])
  handle_all shards (e ∷ es) = elim (step anomap shards e) [
    | none ↦ none
    | some (shards', calls) ↦ elim (handle_all shards' es) [
      | none ↦ none
      | some (shards'', calls') ↦ some (shards'', calls ++ calls')
    ]
  ]

  module _ (p : ℕ) where
    abbrev pub held_all : Shards anomap → ℕ
    held_all [] = 0
    held_all (shard ∷ shards) = held anomap p shard + held_all shards

    abbrev lost_at : Option (Shard anomap) → (Shard anomap → ℕ) → ℕ
    lost_at none f = 0
    lost_at (some shard) f = f shard

    -- The visits that an event gives `p` and that no map holds: the copy of a guild that is there.
    abbrev pub lost : Shards anomap → Event → ℕ
    lost shards (guild_create id guild) =
        lost_at (get_elem? shards (calculate_shard id (length shards)))
          (lost_guild anomap p id guild)
    lost shards _ = 0

    -- How a handler comes out: the shards balance.
    abbrev pub Kept : Shards anomap → Option (Shards anomap × List Call) → ℕ → Type 0
    Kept shards out l =
        (shards' : Shards anomap) × (calls : List Call) × (out ≡ some (shards', calls))
        × (held_all shards' + total visits_ended p calls + l
            ≡ held_all shards + total visits_given p calls)
        × (length shards' ≡ length shards)

    on_garbage_collection-held_all :
        (now : ℕ) (shards : Shards anomap)
        → let (shards', calls) = on_garbage_collection anomap now shards in
          (held_all shards' + total visits_ended p calls
            ≡ held_all shards + total visits_given p calls)
          × (length shards' ≡ length shards)
    unfolding on_garbage_collection
    on_garbage_collection-held_all now [] = (omega arith, refl)
    on_garbage_collection-held_all now (shard ∷ shards) =
        let (h, l) = on_garbage_collection-held_all now shards in
        (
          omega (
            arith,
            h,
            collect-Balances anomap p now shard,
            total-append visits_ended p (collect anomap now shard).1
                (on_garbage_collection anomap now shards).1,
            total-append visits_given p (collect anomap now shard).1
                (on_garbage_collection anomap now shards).1,
          ),
          ap suc l,
        )

    held_all-set :
        (shards : Shards anomap) (i : ℕ) (shard shard' : Shard anomap)
        → get_elem? shards i ≡ some shard
        → held_all (set shards i shard') + held anomap p shard
          ≡ held_all shards + held anomap p shard'
    held_all-set [] i shard shard' e = cc
    held_all-set (s ∷ shards) zero shard shard' e =
        let same : s ≡ shard = ground (arith, e) in rw same (omega arith)
    held_all-set (s ∷ shards) (suc i) shard shard' e =
        omega (arith, held_all-set shards i shard shard' e)

    at_shard-Kept :
        (shards : Shards anomap) (i : ℕ) (f : Shard anomap → Shard anomap × List Call)
        (l : Shard anomap → ℕ) {shard : Shard anomap}
        → get_elem? shards i ≡ some shard
        → Balances anomap p shard (f shard) (l shard)
        → Kept shards (at_shard anomap shards i f) (lost_at (get_elem? shards i) l)
    unfolding at_shard
    at_shard-Kept shards i f l {shard} e b = rw e (
      set shards i (f shard).0,
      (f shard).1,
      ground (arith, e),
      omega (arith, b, held_all-set shards i shard (f shard).0 e),
      length-set shards i (f shard).0,
    )

    at_index-Kept :
        (shards : Shards anomap) (i : ℕ) (f : Shard anomap → Shard anomap × List Call)
        (l : Shard anomap → ℕ)
        → i < length shards
        → ((shard : Shard anomap) → Balances anomap p shard (f shard) (l shard))
        → Kept shards (at_shard anomap shards i f) (lost_at (get_elem? shards i) l)
    at_index-Kept shards i f l h b =
        let (shard, e) = get_elem?_exists shards i h in at_shard-Kept shards i f l e (b shard)

    at_index-Kept_all :
        (shards : Shards anomap) (i : ℕ) (f : Shard anomap → Shard anomap × List Call)
        → i < length shards
        → ((shard : Shard anomap) → Balances anomap p shard (f shard) 0)
        → Kept shards (at_shard anomap shards i f) 0
    at_index-Kept_all shards i f h b =
        let (shard, e) = get_elem?_exists shards i h in
        let (shards', calls, o, q, k) = at_index-Kept shards i f (λ s. 0) h b in
        (shards', calls, o, ground (arith, e, q), k)

    guild_in_range :
        (shards : Shards anomap) (id : ℕ)
        → 0 < length shards
        → calculate_shard id (length shards) < length shards
    guild_in_range shards id h = omega arith

    step-Kept :
        (shards : Shards anomap) (e : Event)
        → InRange (length shards) e
        → Kept shards (step anomap shards e) (lost shards e)
    unfolding step
    step-Kept shards (ready i) h =
        at_index-Kept_all shards i (λ s. (record s { valid = true }, [])) h (λ s. omega arith)
    step-Kept shards (resumed i) h =
        at_index-Kept_all shards i (λ s. (record s { valid = true }, [])) h (λ s. omega arith)
    step-Kept shards (reconnected i) h =
        at_index-Kept_all shards i _ h (on_reconnected-Balances anomap p)
    step-Kept shards (disconnected i resumable) h =
        at_index-Kept_all shards i _ h (on_disconnected-Balances anomap p resumable)
    step-Kept shards (guild_create id guild) h =
        at_index-Kept shards _ _ (lost_guild anomap p id guild) (guild_in_range shards id h)
          (on_guild_create-Balances anomap p id guild)
    step-Kept shards (guild_update id guild) h =
        at_index-Kept_all shards _ _ (guild_in_range shards id h)
          (on_guild_update-Balances anomap p id guild)
    step-Kept shards (guild_delete id) h =
        at_index-Kept_all shards _ _ (guild_in_range shards id h)
          (on_guild_delete-Balances anomap p id)
    step-Kept shards (message_create guild_id id msg) h =
        at_index-Kept_all shards _ _ (guild_in_range shards guild_id h) (λ s.
          put_msgs-Balances anomap p s (anomap.insert s.msg_map id msg)
            (insert-Moves anomap p s.msg_map id msg))
    step-Kept shards (message_update guild_id id msg) h =
        at_index-Kept_all shards _ _ (guild_in_range shards guild_id h) (λ s.
          put_msgs-Balances anomap p s (anomap.upsert s.msg_map id msg)
            (upsert-Moves anomap p s.msg_map id msg))
    step-Kept shards (message_delete guild_id id) h =
        at_index-Kept_all shards _ _ (guild_in_range shards guild_id h) (λ s.
          put_msgs-Balances anomap p s (anomap.delete s.msg_map id)
            (delete-Moves anomap p s.msg_map id))
    step-Kept shards (collects now) h =
        let (q, k) = on_garbage_collection-held_all now shards in
        (
          (on_garbage_collection anomap now shards).0,
          (on_garbage_collection anomap now shards).1,
          refl,
          omega (arith, q),
          k,
        )

    -- The visits lost over a history.
    abbrev pub lost_all : Shards anomap → List Event → ℕ
    lost_all shards [] = 0
    lost_all shards (e ∷ es) =
        lost shards e
        + (elim (step anomap shards e) [ none ↦ 0 | some (shards', calls) ↦ lost_all shards' es ])

    pub handle_all-Kept :
        (shards : Shards anomap) (es : List Event)
        → AllInRange (length shards) es
        → Kept shards (handle_all shards es) (lost_all shards es)
    unfolding handle_all
    handle_all-Kept shards [] h = (shards, [], refl, omega arith, refl)
    handle_all-Kept shards (e ∷ es) (h, hs) =
        let (shards', calls, o, q, k) = step-Kept shards e h in
        let hs' : AllInRange (length shards') es = rw k hs in
        let (shards'', calls', o', q', k') = handle_all-Kept shards' es hs' in
        rw o (
          shards'',
          calls ++ calls',
          ground (arith, o, o'),
          omega (
            arith,
            q,
            q',
            total-append visits_ended p calls calls',
            total-append visits_given p calls calls',
          ),
          k' ∙ k,
        )

    -- In every history of a new cache whose events name shards that are there, no access is out of
    -- bounds, and the visits that the cache gives an address are those that it ends, those of the
    -- places in which its maps hold the address, and those of the copies of guilds that were created
    -- while a guild with their id was there.
    pub handle_all-held_all :
        (es : List Event)
        → AllInRange 1 es
        → (shards' : Shards anomap) × (calls : List Call) × (handle_all (cache_enable anomap) es
            ≡ some (shards', calls))
          × (held_all shards' + total visits_ended p calls + lost_all (cache_enable anomap) es
              ≡ total visits_given p calls)
    unfolding cache_enable
    handle_all-held_all es h =
        let (shards', calls, o, q, k) = handle_all-Kept (cache_enable anomap) es h in
        (shards', calls, o, ground (arith, q, anomap.entries-init))
