-- ===== src/Rest/Begin.antt =====
-- winecord-rest_request.c and winecord-rest_ratelimit.c: the beginning of the requestor with its
-- rate limiter, and of a request.
use wineberry_discord.Prelude.{ℕ, suc, Bool, false, [], ◌∷◌, Option, none, some}
use wineberry_discord.Prelude.Int.{pos}
use wineberry_discord.Chash.{Chash}
use wineberry_discord.Fifo.{Fifo}
use wineberry_discord.Rest.{Text, same, Request}
use wineberry_discord.Rest.Queueing.{State, set_request}
use wineberry_discord.Rest.Match.{new_bucket, bucket_init, long_max}

-- What a caller gives, as far as the queues read it.
pub record Attributes : Type 0 where
  pub high_priority : Bool
  pub sync : Bool

-- What `calloc` leaves in a request.
abbrev pub blank : Request
blank = record { key = []; bucket = 0; retry_attempt = 0; high_priority = false; sync = false }

-- "null" and "miss"
abbrev pub null_key : Text
null_key = b'n' ∷ b'u' ∷ b'l' ∷ b'l' ∷ []

abbrev pub miss_key : Text
miss_key = b'm' ∷ b'i' ∷ b's' ∷ b's' ∷ []

module _ (fifo : Fifo) (chash : Chash Text ℕ same) where
  abbrev pub nothing_yet : State fifo chash
  nothing_yet = record {
    routes = chash.init;
    buckets = λ i. new_bucket fifo chash (pos 0);
    created = 0;
    pending = fifo.empty;
    global_wait = 0;
    requests = λ r. blank;
    incoming = fifo.empty;
    finished = fifo.empty;
    recycling = fifo.empty;
    made = 0;
    retry_limit = 3;
    out = [];
  }

  abbrev pub with_null : State fifo chash
  with_null = bucket_init fifo chash nothing_yet null_key (pos 1)

  -- `winecord_requestor_init` with `winecord_ratelimiter_init`: the buckets "null" and "miss".
  unfoldable pub init : State fifo chash
  unfolding bucket_init
  init = bucket_init fifo chash with_null miss_key long_max

  abbrev take_recycled : State fifo chash → Option ℕ → State fifo chash × ℕ
  take_recycled rl none =
      (set_request fifo chash (record rl { made = suc rl.made }) rl.made blank, rl.made)
  take_recycled rl (some r) = (record rl { recycling = fifo.remove r rl.recycling }, r)

  -- `_winecord_request_get`: a recycled request, or a new one.
  unfoldable pub request_get : State fifo chash → State fifo chash × ℕ
  request_get rl = take_recycled rl (fifo.head? rl.recycling)

  -- `winecord_request_begin` up to the waking of the poller: the request that the rate limiter will
  -- find in the pending queue.
  unfoldable pub request_begin : State fifo chash → Attributes → Text → State fifo chash × ℕ
  unfolding request_get
  request_begin rl attr key =
      let (rl', r) = request_get rl in
      (
        set_request fifo chash (record rl' { incoming = fifo.insert_tail r rl'.incoming }) r
            (record (rl'.requests r) {
              key = key;
              high_priority = attr.high_priority;
              sync = attr.sync;
            }),
        r,
      )
