-- ===== src/Rest/Transfer.antt =====
-- winecord-rest_request.c: a request from `winecord_request_begin` to its recycling. Connections,
-- bodies and the user's callbacks are left out, and so is the reference counter; a transfer that is
-- done is what curl and the response say.
use wineberry_discord.Prelude.{ℕ, ◌+◌, Bool, true, false, List, [], ◌∷◌, ltb, leb, if◌then◌else◌}
use wineberry_discord.Chash.{Chash}
use wineberry_discord.Fifo.{Fifo}
use wineberry_discord.Rest.{Text, same, Result, abort, ok, signals}
use wineberry_discord.Rest.Queueing.{
  State, set_request, emit, bucket_insert, set_timeout, set_global_timeout, request_selector,
  request_unselect,
}
use wineberry_discord.Rest.Match.{Headers, bucket_get, build_fails, build}

-- The outcome of the response: success, an error inside the user agent, or an HTTP error. A 429 has
-- its body's "global" and the milliseconds to wait.
pub data Status : Type 0 where
  success internal : Status
  http_error : ℕ → Status
  too_many_requests : Bool → ℕ → Status

-- What curl says of a transfer: a response, or an error, which may be CURLE_READ_ERROR.
pub data Done : Type 0 where
  response : Status → Headers → Done
  curl_error : Bool → Done

-- HTTP_FORBIDDEN, HTTP_NOT_FOUND, HTTP_BAD_REQUEST, HTTP_UNAUTHORIZED and HTTP_METHOD_NOT_ALLOWED
-- are below 500, as is every code that `default` does not retry.
abbrev pub is_server_error : ℕ → Bool
is_server_error code = leb 500 code

module _ (fifo : Fifo) (chash : Chash Text ℕ same) where
  -- `_winecord_request_info_extract`: whether to try again.
  unfoldable pub info_extract : State fifo chash → ℕ → ℕ → Status → State fifo chash × Bool
  info_extract rl r now success = (rl, false)
  info_extract rl r now internal = (rl, false)
  info_extract rl r now (http_error code) = (rl, is_server_error code)
  info_extract rl r now (too_many_requests is_global wait_ms) =
      let i = (rl.requests r).bucket in
      (
        (if is_global
            then set_global_timeout fifo chash rl i now wait_ms
            else set_timeout fifo chash rl i now wait_ms),
        true,
      )

  -- `_winecord_request_retry`; the count goes up in either case.
  unfoldable pub request_retry : State fifo chash → ℕ → State fifo chash × Bool
  request_retry rl r =
      let q = rl.requests r in
      let rl' = set_request fifo chash rl r (record q { retry_attempt = q.retry_attempt + 1 }) in
      if ltb q.retry_attempt rl.retry_limit
      then (bucket_insert fifo chash rl' q.bucket r true, true)
      else (rl', false)

  -- What the end of a transfer leaves to the queues: a waiting thread, or `queues->finished`.
  abbrev pub finish : State fifo chash → ℕ → State fifo chash
  finish rl r =
      if (rl.requests r).sync
      then emit fifo chash (signals r) rl
      else record rl { finished = fifo.insert_tail r rl.finished }

  abbrev pub unselect : State fifo chash → ℕ → Result (State fifo chash)
  unselect rl r = elim (request_unselect fifo chash rl (rl.requests r).bucket r) [
    | abort ↦ abort
    | ok rl' ↦ ok (finish rl' r)
  ]

  -- `if (!retry || !_winecord_request_retry(rqtor, req))`
  unfoldable pub retry_or_finish : State fifo chash → ℕ → Bool → Result (State fifo chash)
  retry_or_finish rl r retry =
      if retry
      then (let (rl', again) = request_retry rl r in if again then ok rl' else unselect rl' r)
      else unselect rl r

  -- One message of `winecord_requestor_info_read`.
  unfoldable pub transfer_done : State fifo chash → ℕ → ℕ → Done → Result (State fifo chash)
  transfer_done rl r now (response status headers) =
      let (rl', retry) = info_extract rl r now status in
      let q = rl'.requests r in
      if build_fails fifo chash rl' q.bucket q.key headers
      then abort
      else retry_or_finish (build fifo chash rl' q.bucket q.key now headers) r retry
  transfer_done rl r now (curl_error is_read_error) = retry_or_finish rl r is_read_error

  -- The loop of `winecord_requestor_start_pending`.
  unfoldable pub assign_all : State fifo chash → List ℕ → State fifo chash
  assign_all rl [] = rl
  assign_all rl (r ∷ rs) =
      let q = rl.requests r in
      assign_all (bucket_insert fifo chash rl (bucket_get fifo chash rl q.key) r q.high_priority) rs

  -- `winecord_requestor_start_pending`
  unfoldable pub start_pending : State fifo chash → ℕ → Result (State fifo chash)
  start_pending rl now =
      request_selector fifo chash
        (assign_all (record rl { incoming = fifo.empty }) (fifo.to_list rl.incoming)) now

  -- The queues' part of `winecord_request_cancel`: the request is ready to be used again.
  unfoldable pub request_cancel : State fifo chash → ℕ → State fifo chash
  request_cancel rl r =
      set_request fifo chash (record rl { recycling = fifo.insert_tail r rl.recycling }) r
        (record (rl.requests r) {
          key = [];
          retry_attempt = 0;
          high_priority = false;
          sync = false;
        })

  unfoldable pub cancel_all : State fifo chash → List ℕ → State fifo chash
  cancel_all rl [] = rl
  cancel_all rl (r ∷ rs) = cancel_all (request_cancel rl r) rs

  -- `winecord_requestor_dispatch_responses`, where it gets the lock.
  unfoldable pub dispatch_responses : State fifo chash → State fifo chash
  dispatch_responses rl =
      cancel_all (record rl { finished = fifo.empty }) (fifo.to_list rl.finished)
