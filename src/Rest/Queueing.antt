-- ===== src/Rest/Queueing.antt =====
-- winecord-rest_ratelimit.c: `winecord_bucket_insert`, the selection of the next request of each
-- bucket, and the timeouts.
use wineberry_discord.Prelude.{
  ℕ, ◌-◌, ◌==◌, Bool, true, false, List, [], ◌∷◌, ◌++◌, Option, none, some, ltb, if◌then◌else◌,
}
use wineberry_discord.Prelude.Int.{ℤ, pos, negsuc}
use wineberry_discord.Chash.{Chash}
use wineberry_discord.Fifo.{Fifo}
use wineberry_discord.Rest.{
  Text, same, Busy, idle, timeout, request, Out, sends, wakes, Result, abort, ok, Request, update,
  add_u64, Bucket, Rest,
}

abbrev pub is_zero : ℤ → Bool
is_zero (pos n) = n == 0
is_zero (negsuc n) = false

module _ (fifo : Fifo) (chash : Chash Text ℕ same) where
  abbrev pub State : Type 0
  State = Rest fifo chash

  abbrev pub set_bucket : State → ℕ → Bucket fifo → State
  set_bucket rl i b = record rl { buckets = update rl.buckets i b }

  abbrev pub set_request : State → ℕ → Request → State
  set_request rl r q = record rl { requests = update rl.requests r q }

  abbrev pub emit : Out → State → State
  emit o rl = record rl { out = rl.out ++ o ∷ [] }

  -- `winecord_bucket_insert`, for a request that is in no queue of the rate limiter.
  unfoldable pub bucket_insert : State → ℕ → ℕ → Bool → State
  bucket_insert rl i r high_priority =
      let b = rl.buckets i in
      let next' = if high_priority then fifo.insert_head r b.next else fifo.insert_tail r b.next in
      record rl {
        buckets = update rl.buckets i (record b { next = next'; linked = true });
        pending = if b.linked then rl.pending else fifo.insert_head i rl.pending;
        requests = update rl.requests r (record (rl.requests r) { bucket = i });
      }

  -- `winecord_bucket_set_timeout`
  unfoldable pub set_timeout : State → ℕ → ℕ → ℕ → State
  set_timeout rl i now wait_ms = set_bucket rl i (record (rl.buckets i) {
    remaining = pos 0;
    reset_tstamp = add_u64 now wait_ms;
    busy_req = idle;
  })

  -- `winecord_ratelimiter_set_global_timeout`
  unfoldable pub set_global_timeout : State → ℕ → ℕ → ℕ → State
  unfolding set_timeout
  set_global_timeout rl i now wait_ms =
      set_timeout (record rl { global_wait = add_u64 now wait_ms }) i now wait_ms

  -- `_winecord_bucket_wake_cb`
  unfoldable pub wake : State → ℕ → State
  wake rl i = set_bucket rl i (record (rl.buckets i) { busy_req = idle; remaining = pos 1 })

  -- The time that `_winecord_bucket_try_timeout` waits; a moment that has passed is not waited for.
  unfoldable pub wait_until : State → ℕ → ℕ → ℕ
  wait_until rl i now =
      let reset = (rl.buckets i).reset_tstamp in
      (if ltb reset rl.global_wait then rl.global_wait else reset) - now

  -- `_winecord_bucket_try_timeout`
  unfoldable pub try_timeout : State → ℕ → ℕ → State
  try_timeout rl i now =
      emit (wakes i (wait_until rl i now))
        (set_bucket rl i (record (rl.buckets i) { busy_req = timeout }))

  -- `QUEUE_INSERT_TAIL(&rl->queues.pending, qelem)`
  abbrev pub keep_pending : State → ℕ → State
  keep_pending rl i = record rl { pending = fifo.insert_tail i rl.pending }

  abbrev pub unlink : State → ℕ → State
  unlink rl i = set_bucket rl i (record (rl.buckets i) { linked = false })

  -- `_winecord_bucket_request_select`, the callback `_winecord_request_send`, and the bucket's way
  -- back to the pending queue. An empty queue has no head to select.
  abbrev pub select_from : State → ℕ → Option ℕ → Result State
  select_from rl i none = abort
  select_from rl i (some r) =
      let b = rl.buckets i in
      let rest = fifo.remove r b.next in
      let rl' = emit (sends r) (set_bucket rl i (record b { next = rest; busy_req = request r })) in
      elim (fifo.head? rest) [ none ↦ ok (unlink rl' i) | some s ↦ ok (keep_pending rl' i) ]

  abbrev pub select_busy : State → ℕ → ℕ → Busy → Result State
  select_busy rl i now idle =
      if is_zero (rl.buckets i).remaining
      then ok (keep_pending (try_timeout rl i now) i)
      else select_from rl i (fifo.head? (rl.buckets i).next)
  select_busy rl i now timeout = ok (keep_pending rl i)
  select_busy rl i now (request r) = ok (keep_pending rl i)

  -- One round of the loop of `winecord_bucket_request_selector`.
  unfoldable pub select_bucket : State → ℕ → ℕ → Result State
  select_bucket rl i now = select_busy rl i now (rl.buckets i).busy_req

  unfoldable pub select_all : State → List ℕ → ℕ → Result State
  select_all rl [] now = ok rl
  select_all rl (i ∷ is) now = elim (select_bucket rl i now) [
    | abort ↦ abort
    | ok rl' ↦ select_all rl' is now
  ]

  -- `winecord_bucket_request_selector`
  unfoldable pub request_selector : State → ℕ → Result State
  request_selector rl now =
      select_all (record rl { pending = fifo.empty }) (fifo.to_list rl.pending) now

  abbrev is_busy_with : ℕ → Busy → Bool
  is_busy_with r idle = false
  is_busy_with r timeout = false
  is_busy_with r (request s) = s == r

  -- `winecord_bucket_request_unselect`, with its assertion. `req->b` is not read again before the
  -- next `winecord_bucket_insert` sets it.
  unfoldable pub request_unselect : State → ℕ → ℕ → Result State
  request_unselect rl i r =
      let b = rl.buckets i in
      if is_busy_with r b.busy_req
      then ok (elim (fifo.head? b.next) [
        | none ↦ record rl {
          buckets = update rl.buckets i (record b { linked = false; busy_req = idle });
          pending = fifo.remove i rl.pending;
        }
        | some s ↦ set_bucket rl i (record b { busy_req = idle })
      ])
      else abort
