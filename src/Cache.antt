-- ===== src/Cache.antt =====
-- source/wineberry/discord/winecord-cache.c: the guilds and messages that the gateway's events tell
-- of, by shard. A map holds addresses; what a map reports of its changes moves the visits of the
-- reference counter, so that an event of the cache is its new state and the calls of the reference
-- counter that it makes, in order. The copy of a guild that GUILD_BEGIN makes is the address that
-- calloc returned. Each handler holds the lock of its shard, so that a history is a sequence of them.
-- An index of a shard that is not there is an access out of bounds: `none`.
pub mod Balance
pub mod History
pub mod Collect
pub mod Stale
pub mod Lookup
mod Tests
use wineberry_discord.Prelude.{
  ℕ, ◌+◌, ◌-◌, ◌*◌, ◌/◌, ◌%◌, ◌^◌, ◌==◌, ◌&&◌, not, Bool, true, false, List, [], ◌∷◌, ◌++◌, Option,
  none, some, length, get_elem?, set, if◌then◌else◌,
}
use wineberry_discord.Refcount.{Call, adds_internal, incrs, decrs, claims}
use wineberry_discord.Anomap.{Anomap, Change, inserted, updated, deleted}

-- `_calculate_shard`
abbrev pub calculate_shard : ℕ → ℕ → ℕ
calculate_shard guild_id total_shards = (guild_id / 2 ^ 22) % total_shards

-- `_on_guild_map_changed`
abbrev pub on_guild_change : Change → List Call
on_guild_change (inserted now) = []
on_guild_change (updated prev now) = decrs prev ∷ []
on_guild_change (deleted prev) = decrs prev ∷ []

-- `_on_map_changed`
abbrev pub on_change : Change → List Call
on_change (inserted now) = incrs now ∷ []
on_change (updated prev now) = decrs prev ∷ incrs now ∷ []
on_change (deleted prev) = decrs prev ∷ []

abbrev pub report : (Change → List Call) → List Change → List Call
report f [] = []
report f (c ∷ cs) = f c ++ report f cs

-- WINECORD_EPOCH
abbrev pub epoch : ℕ
epoch = 1420070400000

-- The smallest id of a message of the last ten minutes, in 64 bits.
abbrev pub delete_before : ℕ → ℕ
delete_before now = ((now + 2 ^ 64 - epoch - 600000) * 2 ^ 22) % 2 ^ 64

-- `winecord_guild_cleanup`, as the number of a cleanup.
abbrev pub guild_cleanup : Option ℕ
guild_cleanup = some 1

pub data Event : Type 0 where
  ready resumed reconnected : ℕ → Event
  disconnected : ℕ → Bool → Event
  guild_create guild_update : ℕ → ℕ → Event
  guild_delete : ℕ → Event
  message_create message_update : ℕ → ℕ → ℕ → Event
  message_delete : ℕ → ℕ → Event
  collects : ℕ → Event

module _ (anomap : Anomap) where
  -- `struct _winecord_shard_cache`
  pub record Shard : Type 0 where
    pub valid : Bool
    pub guild_map : anomap.Carrier
    pub msg_map : anomap.Carrier

  -- `data->caches`, of which there are `total_shards`.
  abbrev pub Shards : Type 0
  Shards = List Shard

  -- `winecord_cache_enable`
  unfoldable pub cache_enable : Shards
  cache_enable = record { valid = false; guild_map = anomap.init; msg_map = anomap.init } ∷ []

  abbrev pub put_guilds : Shard → anomap.Carrier × List Change → Shard × List Call
  put_guilds shard (m, changes) = (record shard { guild_map = m }, report on_guild_change changes)

  abbrev pub put_msgs : Shard → anomap.Carrier × List Change → Shard × List Call
  put_msgs shard (m, changes) = (record shard { msg_map = m }, report on_change changes)

  -- `_winecord_shard_cache_cleanup`
  unfoldable pub shard_cleanup : Shard → Shard × List Call
  shard_cleanup shard =
      let (shard', calls) = put_guilds shard (anomap.clear shard.guild_map) in
      let (shard'', calls') = put_msgs shard' (anomap.clear shard'.msg_map) in
      (shard'', calls ++ calls')

  unfoldable pub on_reconnected : Shard → Shard × List Call
  unfolding shard_cleanup
  on_reconnected shard =
      let (shard', calls) = shard_cleanup shard in (record shard' { valid = true }, calls)

  unfoldable pub on_disconnected : Bool → Shard → Shard × List Call
  unfolding shard_cleanup
  on_disconnected resumable shard =
      let (shard', calls) = if not resumable then shard_cleanup shard else (shard, []) in
      (record shard' { valid = false }, calls)

  -- GUILD_BEGIN, and the store of the copy.
  unfoldable pub on_guild_create : ℕ → ℕ → Shard → Shard × List Call
  on_guild_create id guild shard =
      let (shard', calls) = put_guilds shard (anomap.insert shard.guild_map id guild) in
      (shard', adds_internal guild guild_cleanup true ∷ calls)

  unfoldable pub on_guild_update : ℕ → ℕ → Shard → Shard × List Call
  on_guild_update id guild shard =
      let (shard', calls) = put_guilds shard (anomap.upsert shard.guild_map id guild) in
      (shard', adds_internal guild guild_cleanup true ∷ calls)

  -- The part of `_on_garbage_collection` for one shard.
  unfoldable pub collect : ℕ → Shard → Shard × List Call
  collect now shard =
      let idx = anomap.index_of shard.msg_map (delete_before now) in
      if idx == 0
      then (shard, [])
      else put_msgs shard (anomap.delete_range shard.msg_map 0 (idx - 1))

  unfoldable pub on_garbage_collection : ℕ → Shards → Shards × List Call
  on_garbage_collection now [] = ([], [])
  on_garbage_collection now (shard ∷ shards) =
      let (shard', calls) = collect now shard in
      let (shards', calls') = on_garbage_collection now shards in
      (shard' ∷ shards', calls ++ calls')

  -- A handler that works on the shard of an index.
  unfoldable pub at_shard : Shards → ℕ → (Shard → Shard × List Call) → Option (Shards × List Call)
  at_shard shards i f = elim (get_elem? shards i) [
    | none ↦ none
    | some shard ↦ some (set shards i (f shard).0, (f shard).1)
  ]

  -- A handler that begins with CACHE_BEGIN.
  abbrev pub at_guild : Shards → ℕ → (Shard → Shard × List Call) → Option (Shards × List Call)
  at_guild shards guild_id f = at_shard shards (calculate_shard guild_id (length shards)) f

  -- The handlers of the cache.
  unfoldable pub step : Shards → Event → Option (Shards × List Call)
  unfolding at_shard
  step shards (ready i) = at_shard shards i (λ s. (record s { valid = true }, []))
  step shards (resumed i) = at_shard shards i (λ s. (record s { valid = true }, []))
  step shards (reconnected i) = at_shard shards i on_reconnected
  step shards (disconnected i resumable) = at_shard shards i (on_disconnected resumable)
  step shards (guild_create id guild) = at_guild shards id (on_guild_create id guild)
  step shards (guild_update id guild) = at_guild shards id (on_guild_update id guild)
  step shards (guild_delete id) =
      at_guild shards id (λ s. put_guilds s (anomap.delete s.guild_map id))
  step shards (message_create guild_id id msg) =
      at_guild shards guild_id (λ s. put_msgs s (anomap.insert s.msg_map id msg))
  step shards (message_update guild_id id msg) =
      at_guild shards guild_id (λ s. put_msgs s (anomap.upsert s.msg_map id msg))
  step shards (message_delete guild_id id) =
      at_guild shards guild_id (λ s. put_msgs s (anomap.delete s.msg_map id))
  step shards (collects now) = some (on_garbage_collection now shards)

  -- `winecord_cache_get_guild`: the guild, and the claim on it.
  unfoldable pub get_guild : Shards → ℕ → Option (Option ℕ × List Call)
  get_guild shards guild_id = elim (get_elem? shards (calculate_shard guild_id (length shards))) [
    | none ↦ none
    | some shard ↦ some (elim (anomap.getval shard.guild_map guild_id) [
      | none ↦ (none, [])
      | some guild ↦ if shard.valid then (some guild, claims guild ∷ []) else (none, [])
    ])
  ]

  -- `winecord_cache_get_channel_message`: the message, and the claim on it. `channel_of` is the
  -- channel that the message at an address names.
  unfoldable pub get_channel_message : (ℕ → ℕ) → Shards → ℕ → ℕ → Option ℕ × List Call
  get_channel_message channel_of [] channel_id message_id = (none, [])
  get_channel_message channel_of (shard ∷ shards) channel_id message_id =
      let later = get_channel_message channel_of shards channel_id message_id in
      elim (anomap.getval shard.msg_map message_id) [
        | none ↦ later
        | some msg ↦
            if (channel_of msg == channel_id) && shard.valid
            then (some msg, claims msg ∷ [])
            else (none, [])
      ]
