-- ===== src/Cache/Balance.antt =====
-- winecord-cache.c: how the visits of the reference counter follow what the cache holds.
use wineberry_discord.Prelude.{
  ℕ, ◌+◌, ◌-◌, ◌≡◌, ◌<◌, ◌==◌, Bool, true, false, List, [], ◌∷◌, ◌++◌, length, if◌then◌else◌, arith,
  refl, Bool-cases, inl, inr,
}
use wineberry_discord.Chash.{is_some}
use wineberry_discord.Refcount.{Call, adds_internal, adds_client, incrs, claims}
use wineberry_discord.Refcount.Ledger.{total, visits_ended}
use wineberry_discord.Anomap.{Anomap, Change, inserted, updated, deleted}
use wineberry_discord.Anomap.Counts.{
  count_before-le, hit, count_value, removed, added, Moves, insert-Moves, upsert-Moves,
  delete-Moves, clear-Moves, delete_range-Moves, added-insert, added-upsert, added-delete,
  added-clear,
}
use wineberry_discord.Cache.{
  Shard, report, on_change, on_guild_change, put_guilds, put_msgs, shard_cleanup, on_reconnected,
  on_disconnected, on_guild_create, on_guild_update, collect, delete_before,
}

-- The visits that a call gives its address, an addition among them.
abbrev pub visits_given : Call → ℕ
visits_given (adds_internal d f s) = 1
visits_given (adds_client d f s) = 1
visits_given (incrs d) = 1
visits_given (claims d) = 1
visits_given _ = 0

pub total-append :
    (f : Call → ℕ) (p : ℕ) (cs ds : List Call) → total f p (cs ++ ds) ≡ total f p cs + total f p ds
total-append f p [] ds = omega arith
total-append f p (c ∷ cs) ds = omega (arith, total-append f p cs ds)

ended-report :
    (p : ℕ) (cs : List Change) → total visits_ended p (report on_change cs) ≡ removed p cs
ended-report p [] = refl
ended-report p (inserted v ∷ cs) = ground (arith, ended-report p cs)
ended-report p (updated w v ∷ cs) = ground (arith, ended-report p cs)
ended-report p (deleted w ∷ cs) = ground (arith, ended-report p cs)

given-report : (p : ℕ) (cs : List Change) → total visits_given p (report on_change cs) ≡ added p cs
given-report p [] = refl
given-report p (inserted v ∷ cs) = ground (arith, given-report p cs)
given-report p (updated w v ∷ cs) = ground (arith, given-report p cs)
given-report p (deleted w ∷ cs) = ground (arith, given-report p cs)

ended-report_guild :
    (p : ℕ) (cs : List Change) → total visits_ended p (report on_guild_change cs) ≡ removed p cs
ended-report_guild p [] = refl
ended-report_guild p (inserted v ∷ cs) = ground (arith, ended-report_guild p cs)
ended-report_guild p (updated w v ∷ cs) = ground (arith, ended-report_guild p cs)
ended-report_guild p (deleted w ∷ cs) = ground (arith, ended-report_guild p cs)

given-report_guild :
    (p : ℕ) (cs : List Change) → total visits_given p (report on_guild_change cs) ≡ 0
given-report_guild p [] = refl
given-report_guild p (inserted v ∷ cs) = ground (arith, given-report_guild p cs)
given-report_guild p (updated w v ∷ cs) = ground (arith, given-report_guild p cs)
given-report_guild p (deleted w ∷ cs) = ground (arith, given-report_guild p cs)

module _ (anomap : Anomap) (p : ℕ) where
  -- How often a shard holds `p`.
  abbrev pub held : Shard anomap → ℕ
  held shard =
      count_value p (anomap.entries shard.guild_map) + count_value p (anomap.entries shard.msg_map)

  -- The visits that a handler gives and ends are those of what the shard comes to hold and holds no
  -- more; `lost` visits are given for what it does not hold.
  abbrev pub Balances : Shard anomap → Shard anomap × List Call → ℕ → Type 0
  Balances shard (shard', calls) lost =
      held shard' + total visits_ended p calls + lost ≡ held shard + total visits_given p calls

  pub put_msgs-Balances :
      (shard : Shard anomap) (r : anomap.Carrier × List Change)
      → Moves anomap p shard.msg_map r
      → Balances shard (put_msgs anomap shard r) 0
  put_msgs-Balances shard (m, cs) h = omega (arith, h, ended-report p cs, given-report p cs)

  -- A map of guilds ends the visits itself, and its handlers give them.
  put_guilds-held :
      (shard : Shard anomap) (r : anomap.Carrier × List Change)
      → Moves anomap p shard.guild_map r
      → (held (put_guilds anomap shard r).0 + total visits_ended p (put_guilds anomap shard r).1
          ≡ held shard + added p r.1)
        × (total visits_given p (put_guilds anomap shard r).1 ≡ 0)
  put_guilds-held shard (m, cs) h =
      (omega (arith, h, ended-report_guild p cs), given-report_guild p cs)

  shard_cleanup-Balances : (shard : Shard anomap) → Balances shard (shard_cleanup anomap shard) 0
  unfolding shard_cleanup
  shard_cleanup-Balances shard =
      let g = anomap.clear shard.guild_map in
      let m = anomap.clear shard.msg_map in
      let shard' = (put_guilds anomap shard g).0 in
      ground (
        arith,
        put_guilds-held shard g (clear-Moves anomap p shard.guild_map),
        added-clear anomap p shard.guild_map,
        put_msgs-Balances shard' m (clear-Moves anomap p shard.msg_map),
        total-append visits_ended p (put_guilds anomap shard g).1 (put_msgs anomap shard' m).1,
        total-append visits_given p (put_guilds anomap shard g).1 (put_msgs anomap shard' m).1,
      )

  pub on_reconnected-Balances :
      (shard : Shard anomap) → Balances shard (on_reconnected anomap shard) 0
  unfolding on_reconnected
  on_reconnected-Balances shard = shard_cleanup-Balances shard

  pub on_disconnected-Balances :
      (resumable : Bool) (shard : Shard anomap)
      → Balances shard (on_disconnected anomap resumable shard) 0
  unfolding on_disconnected
  on_disconnected-Balances true shard = omega arith
  on_disconnected-Balances false shard = shard_cleanup-Balances shard

  -- A guild is copied, and the copy lost, if there is a guild of its id.
  abbrev pub lost_guild : ℕ → ℕ → Shard anomap → ℕ
  lost_guild id guild shard = if is_some (anomap.getval shard.guild_map id) then hit p guild else 0

  pub on_guild_create-Balances :
      (id guild : ℕ) (shard : Shard anomap)
      → Balances shard (on_guild_create anomap id guild shard) (lost_guild id guild shard)
  unfolding on_guild_create
  on_guild_create-Balances id guild shard = ground (
    arith,
    put_guilds-held shard (anomap.insert shard.guild_map id guild)
        (insert-Moves anomap p shard.guild_map id guild),
    added-insert anomap p shard.guild_map id guild,
  )

  pub on_guild_update-Balances :
      (id guild : ℕ) (shard : Shard anomap)
      → Balances shard (on_guild_update anomap id guild shard) 0
  unfolding on_guild_update
  on_guild_update-Balances id guild shard = ground (
    arith,
    put_guilds-held shard (anomap.upsert shard.guild_map id guild)
        (upsert-Moves anomap p shard.guild_map id guild),
    added-upsert anomap p shard.guild_map id guild,
  )

  pub on_guild_delete-Balances :
      (id : ℕ) (shard : Shard anomap)
      → Balances shard (put_guilds anomap shard (anomap.delete shard.guild_map id)) 0
  on_guild_delete-Balances id shard = omega (
    arith,
    put_guilds-held shard (anomap.delete shard.guild_map id)
        (delete-Moves anomap p shard.guild_map id),
    added-delete anomap p shard.guild_map id,
  )

  pub collect-Balances :
      (now : ℕ) (shard : Shard anomap) → Balances shard (collect anomap now shard) 0
  unfolding collect
  collect-Balances now shard =
      let idx = anomap.index_of shard.msg_map (delete_before now) in
      elim (Bool-cases (idx == 0)) [
        | inl z ↦ ground (arith, z)
        | inr n ↦
            let in_range : idx - 1 < length (anomap.entries shard.msg_map) = ground (
              arith,
              n,
              anomap.index_of_lem shard.msg_map (delete_before now),
              count_before-le (delete_before now) (anomap.entries shard.msg_map),
            ) in
            ground (
              arith,
              n,
              put_msgs-Balances shard (anomap.delete_range shard.msg_map 0 (idx - 1))
                  (delete_range-Moves anomap p shard.msg_map (idx - 1) in_range),
            )
      ]
