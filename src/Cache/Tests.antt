-- ===== src/Cache/Tests.antt =====
-- Runs of a cache, and the theorems about it at them.
use wineberry_discord.Prelude.{◌+◌, ◌<◌, ◌≡◌, refl, true, false, List, [], ◌∷◌, none, some, arith}
use wineberry_discord.Refcount.{Call, adds_internal, incrs, decrs, claims}
use wineberry_discord.Refcount.Ledger.{total, visits_ended}
use wineberry_discord.Anomap.Sorted.{sorted_map}
use wineberry_discord.Cache.{
  Event, ready, disconnected, guild_create, guild_update, message_create, message_update, collects,
  Shard, Shards, cache_enable, step, collect, get_guild, guild_cleanup, get_channel_message,
  at_shard, on_guild_create, on_disconnected, shard_cleanup, epoch,
}
use wineberry_discord.Cache.Balance.{visits_given}
use wineberry_discord.Cache.History.{handle_all, handle_all-held_all, held_all, lost_all}
use wineberry_discord.Cache.Collect.{collect-getval}
use wineberry_discord.Cache.Stale.{disconnected-get_guild}
use wineberry_discord.Cache.Lookup.{guild_create-get_guild}

-- Guild 5 is created twice, at the addresses 100 and 101, and a message of it changes.
abbrev events : List Event
events =
    ready 0
    ∷ guild_create 5 100
    ∷ guild_create 5 101
    ∷ message_create 5 9 200
    ∷ message_update 5 9 201
    ∷ disconnected 0 false
    ∷ []

abbrev calls_made : List Call
calls_made =
    adds_internal 100 guild_cleanup true
    ∷ adds_internal 101 guild_cleanup true
    ∷ incrs 200
    ∷ decrs 200
    ∷ incrs 201
    ∷ decrs 100
    ∷ decrs 201
    ∷ []

-- The copy at the address 101 is never released.
run_events :
    (out : Shards sorted_map) × (handle_all sorted_map (cache_enable sorted_map) events
      ≡ some (out, calls_made))
unfolding cache_enable handle_all step at_shard on_guild_create on_disconnected shard_cleanup
run_events = (record { valid = false; guild_map = ([], tt); msg_map = ([], tt) } ∷ [], refl)

-- There is a shard of the number 0.
one : 0 < 1
one = omega arith

handle_all-held_all_example :
    (shards' : Shards sorted_map) × (calls : List Call) × (handle_all sorted_map
        (cache_enable sorted_map)
        events
      ≡ some (shards', calls))
    × (held_all sorted_map 101 shards'
          + total visits_ended 101 calls
          + lost_all sorted_map 101 (cache_enable sorted_map) events
        ≡ total visits_given 101 calls)
handle_all-held_all_example =
    handle_all-held_all sorted_map 101 events (one, (one, (one, (one, (one, (one, tt))))))

-- One shard with guild 5 at the address 100, and two messages of 1 and 2000000 ms.
abbrev shard : Shard sorted_map
shard = record {
  valid = true;
  guild_map = (sorted_map.insert sorted_map.init 5 100).0;
  msg_map =
      (sorted_map.insert (sorted_map.insert sorted_map.init 4194304 200).0 8388608000000 201).0;
}

guild_create-get_guild_example :
    (shards' : Shards sorted_map) × (step sorted_map (shard ∷ []) (guild_create 5 101)
      ≡ some (shards', adds_internal 101 guild_cleanup true ∷ []))
    × (get_guild sorted_map shards' 5 ≡ some (some 100, claims 100 ∷ []))
guild_create-get_guild_example = guild_create-get_guild sorted_map (shard ∷ []) 5 101 5 refl

collect-getval_example :
    sorted_map.getval (collect sorted_map (epoch + 700000) shard).0.msg_map 4194304 ≡ none
collect-getval_example =
    collect-getval sorted_map shard (epoch + 700000) 4194304 (omega arith) (omega arith)

disconnected-get_guild_example :
    (shards' : Shards sorted_map) × (calls : List Call) × (handle_all sorted_map
        (shard ∷ [])
        (disconnected 0 true ∷ guild_update 5 101 ∷ collects 9 ∷ [])
      ≡ some (shards', calls))
    × (get_guild sorted_map shards' 5 ≡ some (none, []))
disconnected-get_guild_example =
    disconnected-get_guild sorted_map (shard ∷ []) 0 5 true (guild_update 5 101 ∷ collects 9 ∷ [])
      (one, (one, (one, tt))) (λ r. r, (λ r. r, tt)) refl

-- A message of another channel is not found, and nothing is claimed.
run_get_message : get_channel_message sorted_map (λ m. 33) (shard ∷ []) 34 4194304 ≡ (none, [])
unfolding get_channel_message
run_get_message = refl
