-- ===== src/Rest/Match.antt =====
-- winecord-rest_ratelimit.c: how a key finds its bucket, and what the headers of a response tell.
use wineberry_discord.Prelude.{
  ℕ, ◌+◌, ◌-◌, ◌%◌, ◌^◌, ◌==◌, ◌&&◌, not, Bool, false, List, [], ◌∷◌, Option, none, some, ltb,
  if◌then◌else◌, suc,
}
use wineberry_discord.Prelude.Int.{ℤ, pos}
use wineberry_discord.Chash.{Chash}
use wineberry_discord.Fifo.{Fifo}
use wineberry_discord.Rest.{Text, same, idle, update, add_u64, Bucket, null_bucket, miss_bucket}
use wineberry_discord.Rest.Queueing.{State, set_bucket, bucket_insert}

-- The headers that the rate limiter reads; `none` is one that is missing or empty. `hash_size` is the
-- length of "x-ratelimit-bucket", 0 where it is missing: the text itself is only logged. A time is in
-- milliseconds, `date` that of the header "date" with the elapsed time of the request added.
pub record Headers : Type 0 where
  pub hash_size : ℕ
  pub limit : Option ℤ
  pub remaining : Option ℤ
  pub reset_after : Option ℕ
  pub is_global : Bool
  pub reset : Option ℕ
  pub date : ℕ

-- The response names a group of requests that share a limit.
abbrev pub names_bucket : Headers → Bool
names_bucket headers = ltb 0 headers.hash_size

abbrev pub long_max : ℤ
long_max = pos 9223372036854775807

abbrev pub value_or {ℓ} : {A : Type ℓ} → Option A → A → A
value_or none a = a
value_or (some b) a = b

module _ (fifo : Fifo) (chash : Chash Text ℕ same) where
  -- `_winecord_bucket_find`
  unfoldable pub bucket_find : State fifo chash → Text → Option ℕ
  bucket_find rl key = if chash.contains rl.routes key then chash.lookup rl.routes key else none

  -- `winecord_bucket_get`
  unfoldable pub bucket_get : State fifo chash → Text → ℕ
  unfolding bucket_find
  bucket_get rl key = value_or (bucket_find rl key) null_bucket

  abbrev pub new_bucket : ℤ → Bucket fifo
  new_bucket limit = record {
    limit = limit;
    remaining = pos 1;
    reset_tstamp = 0;
    busy_req = idle;
    next = fifo.empty;
    linked = false;
  }

  -- `_winecord_bucket_init`, once its assertion has held: that the hash fits, `fits_hash`.
  unfoldable pub bucket_init : State fifo chash → Text → ℤ → State fifo chash
  bucket_init rl key limit = record rl {
    routes = (chash.assign rl.routes key rl.created).0;
    buckets = update rl.buckets rl.created (new_bucket limit);
    created = suc rl.created;
  }

  -- The loop of `_winecord_ratelimiter_null_filter`: `target` is `b`, which becomes the null bucket
  -- at the first request with another key and stays it.
  unfoldable pub filter_from : State fifo chash → ℕ → Text → List ℕ → State fifo chash
  filter_from rl target key [] = rl
  filter_from rl target key (r ∷ rs) =
      let target' = if same (rl.requests r).key key then target else null_bucket in
      filter_from (bucket_insert fifo chash rl target' r false) target' key rs

  -- `_winecord_ratelimiter_null_filter`
  unfoldable pub null_filter : State fifo chash → ℕ → Text → State fifo chash
  null_filter rl target key =
      let b = rl.buckets null_bucket in
      filter_from (set_bucket fifo chash rl null_bucket (record b { next = fifo.empty })) target key
        (fifo.to_list b.next)

  abbrev pub match_or_create : State fifo chash → Text → Headers → Option ℕ → State fifo chash × ℕ
  match_or_create rl key headers (some i) = (rl, i)
  match_or_create rl key headers none =
      if names_bucket headers
      then (bucket_init rl key (value_or headers.limit long_max), rl.created)
      else (rl, miss_bucket)

  -- `_winecord_ratelimiter_get_match`
  unfoldable pub get_match : State fifo chash → Text → Headers → State fifo chash × ℕ
  get_match rl key headers =
      let (rl', i) = match_or_create rl key headers (bucket_find rl key) in
      (null_filter rl' i key, i)

  abbrev reset_times : State fifo chash → ℕ → ℕ → Headers → Option ℕ → State fifo chash
  reset_times rl i now headers (some after) =
      if headers.is_global
      then record rl { global_wait = add_u64 now after }
      else set_bucket fifo chash rl i (record (rl.buckets i) { reset_tstamp = add_u64 now after })
  reset_times rl i now headers none = elim headers.reset [
    | none ↦ rl
    | some reset ↦ set_bucket fifo chash rl i (record (rl.buckets i) {
      reset_tstamp = add_u64 now ((reset + 2 ^ 64 - headers.date) % 2 ^ 64);
    })
  ]

  -- `_winecord_bucket_populate`
  unfoldable pub populate : State fifo chash → ℕ → ℕ → Headers → State fifo chash
  populate rl i now headers =
      reset_times
        (set_bucket fifo chash rl i
          (record (rl.buckets i) { remaining = value_or headers.remaining (pos 1) }))
        i now headers headers.reset_after

  -- `ASSERT_NOT_OOB` of `_winecord_bucket_init`: with its NUL the hash has at most 64 bytes.
  abbrev pub fits_hash : Headers → Bool
  fits_hash headers = ltb headers.hash_size 64

  -- The assertion fails where `winecord_ratelimiter_build` makes a bucket.
  abbrev pub is_new : State fifo chash → Text → Headers → Option ℕ → Bool
  is_new rl key headers (some i) = false
  is_new rl key headers none = names_bucket headers

  unfoldable pub build_fails : State fifo chash → ℕ → Text → Headers → Bool
  build_fails rl i key headers =
      i == null_bucket && (is_new rl key headers (bucket_find rl key) && not (fits_hash headers))

  -- `winecord_ratelimiter_build`, where its assertion holds.
  unfoldable pub build : State fifo chash → ℕ → Text → ℕ → Headers → State fifo chash
  build rl i key now headers =
      let (rl', i') = if i == null_bucket then get_match rl key headers else (rl, i) in
      populate rl' i' now headers
