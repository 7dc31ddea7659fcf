-- ===== src/Rest/Again.antt =====
-- winecord-rest_request.c: what becomes of a request whose transfer has not succeeded.
use wineberry_discord.Prelude.{ℕ, ◌≡◌, ◌≤◌, ◌==◌, Bool, true, false, ◌∷◌, ltb, arith}
use wineberry_discord.Prelude.Int.{ℤ, pos}
use wineberry_discord.Chash.{Chash}
use wineberry_discord.Fifo.{Fifo}
use wineberry_discord.Rest.{Text, same, Busy, idle, request, abort, ok, Bucket, null_bucket}
use wineberry_discord.Rest.Queueing.{
  State, bucket_insert, set_timeout, set_global_timeout, request_unselect,
}
use wineberry_discord.Rest.Select.{move, skips}
use wineberry_discord.Rest.Match.{Headers, value_or, populate, build_fails, build}
use wineberry_discord.Rest.Transfer.{
  response, http_error, too_many_requests, info_extract, request_retry, retry_or_finish,
  transfer_done,
}

module _ (fifo : Fifo) (chash : Chash Text ℕ same) where
  abbrev bucket_of : State fifo chash → ℕ → Bucket fifo
  bucket_of rl r = rl.buckets (rl.requests r).bucket

  -- A 429 takes the bucket from its request before the request is found to have no attempt left:
  -- the assertion of the unselection fails, and the program ends.
  pub transfer_done-retry_limit :
      (rl : State fifo chash) (r now : ℕ) (is_global : Bool) (wait_ms : ℕ) (headers : Headers)
      → ((rl.requests r).bucket == null_bucket) ≡ false
      → ltb (rl.requests r).retry_attempt rl.retry_limit ≡ false
      → transfer_done fifo chash rl r now (response (too_many_requests is_global wait_ms) headers)
        ≡ abort
  unfolding transfer_done info_extract retry_or_finish request_retry request_unselect build_fails
      build populate set_timeout set_global_timeout
  transfer_done-retry_limit rl r now is_global wait_ms headers hi hr = ground arith

  -- What a bucket is after one of its requests has come back to it.
  pub record Returned (b b' : Bucket fifo) (r : ℕ) (busy : Busy) (remaining : ℤ) : Type 0 where
    pub busy_is : b'.busy_req ≡ busy
    pub remaining_is : b'.remaining ≡ remaining
    pub queued : fifo.to_list b'.next ≡ r ∷ fifo.to_list b.next
    pub in_pending : b'.linked ≡ true

  record Populated (rl rl' : State fifo chash) (i : ℕ) (remaining : ℤ) : Type 0 where
    pub same_requests : rl'.requests ≡ rl.requests
    pub same_limit : rl'.retry_limit ≡ rl.retry_limit
    pub same_out : rl'.out ≡ rl.out
    pub same_busy : (rl'.buckets i).busy_req ≡ (rl.buckets i).busy_req
    pub same_next : (rl'.buckets i).next ≡ (rl.buckets i).next
    pub set_remaining : (rl'.buckets i).remaining ≡ remaining

  populate-Populated :
      (rl : State fifo chash) (i now : ℕ) (headers : Headers)
      → Populated rl (populate fifo chash rl i now headers) i (value_or headers.remaining (pos 1))
  unfolding populate
  populate-Populated rl i now headers = ground arith

  request_retry-Returned :
      (rl : State fifo chash) (r : ℕ)
      → ltb (rl.requests r).retry_attempt rl.retry_limit ≡ true
      → ((request_retry fifo chash rl r).1 ≡ true)
        × Returned
            (bucket_of rl r)
            ((request_retry fifo chash rl r).0.buckets (rl.requests r).bucket)
            r
            (bucket_of rl r).busy_req
            (bucket_of rl r).remaining
        × ((request_retry fifo chash rl r).0.out ≡ rl.out)
  unfolding request_retry bucket_insert
  request_retry-Returned rl r h = ground (arith, fifo.to_list-insert_head r (bucket_of rl r).next)

  -- The state before the retry.
  abbrev limited : State fifo chash → ℕ → ℕ → Bool → ℕ → Headers → State fifo chash
  limited rl r now is_global wait_ms headers =
      populate fifo chash (info_extract fifo chash rl r now (too_many_requests is_global wait_ms)).0
        (rl.requests r).bucket now headers

  record Limited (rl rl' : State fifo chash) (r : ℕ) (remaining : ℤ) : Type 0 where
    pub same_requests : rl'.requests ≡ rl.requests
    pub same_limit : rl'.retry_limit ≡ rl.retry_limit
    pub same_out : rl'.out ≡ rl.out
    pub freed : (rl'.buckets (rl.requests r).bucket).busy_req ≡ idle
    pub same_next : (rl'.buckets (rl.requests r).bucket).next ≡ (bucket_of rl r).next
    pub set_remaining : (rl'.buckets (rl.requests r).bucket).remaining ≡ remaining

  limited-Limited :
      (rl : State fifo chash) (r now : ℕ) (is_global : Bool) (wait_ms : ℕ) (headers : Headers)
      → Limited rl
          (limited rl r now is_global wait_ms headers)
          r
          (value_or headers.remaining (pos 1))
  unfolding info_extract set_timeout set_global_timeout
  limited-Limited rl r now is_global wait_ms headers = ground (
    arith,
    populate-Populated (info_extract fifo chash rl r now (too_many_requests is_global wait_ms)).0
        (rl.requests r).bucket now headers,
  )

  transfer_done-limited :
      (rl : State fifo chash) (r now : ℕ) (is_global : Bool) (wait_ms : ℕ) (headers : Headers)
      → ((rl.requests r).bucket == null_bucket) ≡ false
      → transfer_done fifo chash rl r now (response (too_many_requests is_global wait_ms) headers)
        ≡ retry_or_finish fifo chash (limited rl r now is_global wait_ms headers) r true
  unfolding transfer_done info_extract build_fails build set_timeout set_global_timeout
  transfer_done-limited rl r now is_global wait_ms headers hi = ground (arith, hi)

  pub too_many_requests-Returned :
      (rl : State fifo chash) (r now : ℕ) (is_global : Bool) (wait_ms : ℕ) (headers : Headers)
      → ((rl.requests r).bucket == null_bucket) ≡ false
      → ltb (rl.requests r).retry_attempt rl.retry_limit ≡ true
      → let rl' = (request_retry fifo chash (limited rl r now is_global wait_ms headers) r).0 in
        (transfer_done fifo chash rl r now (response (too_many_requests is_global wait_ms) headers)
          ≡ ok rl')
        × Returned
            (bucket_of rl r)
            (rl'.buckets (rl.requests r).bucket)
            r
            idle
            (value_or headers.remaining (pos 1))
        × (rl'.out ≡ rl.out)
  unfolding retry_or_finish
  too_many_requests-Returned rl r now is_global wait_ms headers hi hr = ground (
    arith,
    hi,
    hr,
    transfer_done-limited rl r now is_global wait_ms headers hi,
    limited-Limited rl r now is_global wait_ms headers,
    request_retry-Returned (limited rl r now is_global wait_ms headers) r,
  )

  transfer_done-populated :
      (rl : State fifo chash) (r now code : ℕ) (headers : Headers)
      → ((rl.requests r).bucket == null_bucket) ≡ false
      → 500 ≤ code
      → transfer_done fifo chash rl r now (response (http_error code) headers)
        ≡ retry_or_finish fifo chash
            (populate fifo chash rl (rl.requests r).bucket now headers)
            r
            true
  unfolding transfer_done info_extract build_fails build
  transfer_done-populated rl r now code headers hi hc = ground (arith, hi)

  -- A request whose server failed, or whose transfer did, is put back into its bucket, which stays
  -- busy with it. So the bucket is passed over, and the request is not sent again.
  pub transfer_done-server_error :
      (rl : State fifo chash) (r now code : ℕ) (headers : Headers)
      → ((rl.requests r).bucket == null_bucket) ≡ false
      → ltb (rl.requests r).retry_attempt rl.retry_limit ≡ true
      → (bucket_of rl r).busy_req ≡ request r
      → 500 ≤ code
      → (rl' : State fifo chash) × (transfer_done fifo chash rl r now
            (response (http_error code) headers)
          ≡ ok rl')
        × Returned
            (bucket_of rl r)
            (rl'.buckets (rl.requests r).bucket)
            r
            (request r)
            (value_or headers.remaining (pos 1))
        × (move fifo chash (rl'.buckets (rl.requests r).bucket) ≡ skips)
        × (rl'.out ≡ rl.out)
  unfolding retry_or_finish
  transfer_done-server_error rl r now code headers hi hr hb hc =
      let rl₀ = populate fifo chash rl (rl.requests r).bucket now headers in
      let p = populate-Populated rl (rl.requests r).bucket now headers in
      let (again, t, o) =
        request_retry-Returned rl₀ r (ground (arith, hr, p.same_requests, p.same_limit)) in
      (
        (request_retry fifo chash rl₀ r).0,
        ground (arith, transfer_done-populated rl r now code headers hi hc, again),
        record {
          busy_is = ground (arith, t.busy_is, p.same_busy, p.same_requests, hb);
          remaining_is = ground (arith, t.remaining_is, p.set_remaining, p.same_requests);
          queued = ground (arith, t.queued, p.same_next, p.same_requests);
          in_pending = ground (arith, t.in_pending, p.same_requests);
        },
        ground (arith, t.busy_is, p.same_busy, p.same_requests, hb),
        ground (arith, o, p.same_out),
      )
