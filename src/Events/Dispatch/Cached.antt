-- ===== src/Events/Dispatch/Cached.antt =====
-- winecord-gateway_dispatch.c with winecord-cache.c and winecord-refcount.c: a message that the cache
-- takes from the event of its creation.
use wineberry_discord.Prelude.{
  ℕ, ◌+◌, ◌≤◌, ◌≡◌, ◌==◌, Bool, true, false, List, [], ◌∷◌, Option, none, some, length, get_elem?,
  arith, refl, if◌then◌else◌,
}
use wineberry_discord.Chash.{Chash, is_some}
use wineberry_discord.Anomap.{Anomap}
use wineberry_discord.Refcount.{RefValue, Refcounter, Call, incrs, int_max, refvalue_find, run}
use wineberry_discord.Refcount.Entry.{step-ActsAs}
use wineberry_discord.Refcount.Visits.{Keeps}
use wineberry_discord.Cache.{Shard, Shards, Event, message_create, calculate_shard, at_shard}
use wineberry_discord.Cache
use wineberry_discord.Events.Dispatch.{EventData, winecord_message, on_message_create}
use wineberry_discord.Events.Dispatch.Deliver.{
  Receivers, call_user, hold_data, deliver, dispatch_data,
}
use wineberry_discord.Events.Dispatch.Released.{data_at, IsFinished, dispatch_data-IsFinished}

abbrev pub calls_of {ℓ} : {A : Type ℓ} → Option (A × List Call) → List Call
calls_of none = []
calls_of (some (shards, calls)) = calls

module _ (anomap : Anomap) (refs : Chash ℕ RefValue ◌==◌) (cleanup : EventData → ℕ) where
  -- The cache's handler of the event does the calls that it makes of the reference counter.
  abbrev pub with_cache :
      Shards anomap → Event → (ℕ → ℕ → Refcounter refs → Refcounter refs) → Receivers refs cleanup
  with_cache shards e user_effect = record {
    cache_effect = λ handler d rc. run refs rc (calls_of (Cache.step anomap shards e));
    user_effect = user_effect;
  }

  -- The visits that the cache keeps of a message that is created.
  abbrev pub taken : Shard anomap → ℕ → ℕ
  taken shard id = if is_some (anomap.getval shard.msg_map id) then 0 else 1

  calls_of-message_create :
      (shards : Shards anomap) (guild_id id d : ℕ) {shard : Shard anomap}
      → get_elem? shards (calculate_shard guild_id (length shards)) ≡ some shard
      → calls_of (Cache.step anomap shards (message_create guild_id id d))
        ≡ (if is_some (anomap.getval shard.msg_map id) then [] else incrs d ∷ [])
  unfolding Cache.step at_shard
  calls_of-message_create shards guild_id id d {shard} e =
      ground
        (arith, e, anomap.insert_changes shard.msg_map id d, anomap.getval_lem shard.msg_map id)

  run-Keeps :
      (known : Bool) (d : ℕ)
      → Keeps refs
          (λ rc. run refs rc (if known then [] else incrs d ∷ []))
          d
          (if known then 0 else 1)
          0
  unfolding run
  run-Keeps true d rc v found fits = ground (arith, found)
  run-Keeps false d rc v found fits =
      let (finds, code, effects) = step-ActsAs refs rc (incrs d) in
      ground (arith, found, fits, finds d)

  -- The dispatch of the creation of a message, at an address that is not in the reference counter, to
  -- the cache and to a callback of the user or none, which keeps some visits of it, of which no more are
  -- claims, and which with two more fit INT_MAX: if the shard of its guild has no message of its id, the
  -- message stays after the event with one visit more than the user keeps; otherwise it stays if the
  -- user keeps a visit, and is cleaned up and freed after the callbacks if not.
  pub message_create-IsFinished :
      (shards : Shards anomap) (guild_id id d : ℕ) (shard : Shard anomap)
      (user_effect : ℕ → ℕ → Refcounter refs → Refcounter refs) (rc : Refcounter refs)
      (user : Option ℕ) (visits claims : ℕ)
      → get_elem? shards (calculate_shard guild_id (length shards)) ≡ some shard
      → refvalue_find refs rc d ≡ none
      → Keeps refs
          (call_user refs cleanup
            (with_cache shards (message_create guild_id id d) user_effect)
            user
            d)
          d
          visits
          claims
      → claims ≤ visits
      → 2 + visits ≤ int_max
      → let receivers = with_cache shards (message_create guild_id id d) user_effect in
        IsFinished refs cleanup rc
          (hold_data refs cleanup rc d winecord_message)
          (deliver refs cleanup receivers rc d winecord_message (some on_message_create) user)
          (data_at refs cleanup d winecord_message)
          (taken shard id + visits)
          (0 + claims)
          (dispatch_data refs cleanup receivers rc d
            (some winecord_message)
            (some on_message_create)
            user)
  message_create-IsFinished shards guild_id id d shard user_effect rc user visits claims e new keeps
        le fits =
      dispatch_data-IsFinished refs cleanup
        (with_cache shards (message_create guild_id id d) user_effect) rc d winecord_message
        (some on_message_create) user (taken shard id) 0 visits claims refl new
        (rw (calls_of-message_create shards guild_id id d e)
          (run-Keeps (is_some (anomap.getval shard.msg_map id)) d))
        keeps (omega arith) le (ground (arith, fits))
