-- ===== src/Rest/Tests.antt =====
-- Runs of a requestor with two routes, and the theorems about it at them.
use wineberry_discord.Prelude.{◌≡◌, refl, Bool, true, false, [], ◌∷◌, none, some, arith, ltb}
use wineberry_discord.Prelude.Int.{pos}
use wineberry_discord.Chash.Texts.{text_table}
use wineberry_discord.Fifo.{list_fifo}
use wineberry_discord.Rest.{Result, ok, abort, request, sends}
use wineberry_discord.Rest.Queueing.{
  State, bucket_insert, select_bucket, select_all, request_selector, request_unselect, set_timeout,
  set_global_timeout,
}
use wineberry_discord.Rest.Match.{
  Headers, build_fails, build, populate, null_filter, filter_from, get_match, bucket_get,
}
use wineberry_discord.Rest.Begin.{Attributes, init, request_begin}
use wineberry_discord.Rest.Transfer.{
  response, success, http_error, too_many_requests, transfer_done, start_pending, assign_all,
  info_extract, retry_or_finish, request_retry,
}
use wineberry_discord.Rest.Select.{starts as starts_next}
use wineberry_discord.Rest.Pass.{member}
use wineberry_discord.Rest.Again.{transfer_done-retry_limit}
use wineberry_discord.Rest.Sound.{IsSound}
use wineberry_discord.Rest.Sound.History.{
  begins, starts, done, Reach, here, next, Reach-IsSound, Reach-start_pending,
}
use wineberry_discord.Rest.Sound.Blocked.{IsBlocked}
use wineberry_discord.Rest.Sound.Starved.{server_error-Reach}

abbrev Requestor : Type 0
Requestor = State list_fifo text_table

abbrev ok_or : Result Requestor → Requestor → Requestor
ok_or (ok rl) rl' = rl
ok_or abort rl' = rl'

abbrev plain : Attributes
plain = record { high_priority = false; sync = false }

abbrev silent : Headers
silent = record {
  hash_size = 0;
  limit = none;
  remaining = none;
  reset_after = none;
  is_global = false;
  reset = none;
  date = 0;
}

abbrev named : Headers
named = record silent { hash_size = 32; limit = some (pos 5); remaining = some (pos 4) }

abbrev new : Requestor
new = init list_fifo text_table

-- Three requests, two of one route.
abbrev asked : Requestor
asked =
    (request_begin list_fifo text_table
      (request_begin list_fifo text_table (request_begin list_fifo text_table new plain (7 ∷ [])).0
        plain (7 ∷ [])).0
      plain (8 ∷ [])).0

abbrev sent : Requestor
sent = ok_or (start_pending list_fifo text_table asked 100) asked

-- Naming this one unfolds all that a run computes with.
running : Bool
unfolding start_pending assign_all bucket_get bucket_insert request_selector select_all
    select_bucket init request_begin transfer_done build_fails build get_match null_filter
    filter_from populate info_extract retry_or_finish request_unselect request_retry set_timeout
    set_global_timeout
running = true

sent_first : (sent.out ≡ sends 0 ∷ []) × ((sent.buckets 0).busy_req ≡ request 0)
unfolding running
sent_first = (refl, refl)

-- The response names a bucket of its route, to which the second request goes.
abbrev answered : Requestor
answered = ok_or (transfer_done list_fifo text_table sent 0 200 (response success named)) sent

answered_bucket : (answered.finished ≡ 0 ∷ []) × ((answered.buckets 2).next ≡ 1 ∷ [])
unfolding running
answered_bucket = (refl, refl)

abbrev sent_again : Requestor
sent_again = ok_or (start_pending list_fifo text_table answered 300) answered

sent_second : (sent_again.buckets 2).busy_req ≡ request 1
unfolding running
sent_second = refl

history : Reach list_fifo text_table new sent_again
unfolding running
history =
    next
      (next
        (next
          (next (next (next here (begins plain (7 ∷ []))) (begins plain (7 ∷ [])))
            (begins plain (8 ∷ [])))
          (starts 100 refl))
        (done 0 200 (response success named) refl refl refl))
      (starts 300 refl)

Reach-IsSound_example : IsSound list_fifo text_table sent_again
Reach-IsSound_example = Reach-IsSound list_fifo text_table history

Reach-start_pending_example :
    (rl' : Requestor) × (start_pending list_fifo text_table sent_again 400 ≡ ok rl')
    × IsSound list_fifo text_table rl'
Reach-start_pending_example = Reach-start_pending list_fifo text_table 400 history

-- A bucket with a name of 64 bytes ends the program.
name_too_long :
    transfer_done list_fifo text_table sent 0 200
      (response success (record named { hash_size = 64 }))
    ≡ abort
unfolding running
name_too_long = refl

abbrev retried : Requestor
retried =
    ok_or (transfer_done list_fifo text_table sent_again 1 400 (response (http_error 503) silent))
      sent_again

-- The caller asks once more.
abbrev waiting : Requestor
waiting = (request_begin list_fifo text_table retried plain (7 ∷ [])).0

busy_before :
    ((sent_again.requests 1).bucket ≡ 2)
    × (ltb (sent_again.requests 1).retry_attempt sent_again.retry_limit ≡ true)
    × ((sent_again.buckets 2).busy_req ≡ request 1)
    × (member 1 (sent_again.buckets 2).next ≡ false)
unfolding running
busy_before = (refl, refl, refl, refl)

retried_ok :
    transfer_done list_fifo text_table sent_again 1 400 (response (http_error 503) silent)
    ≡ ok retried
unfolding running
retried_ok = refl

server_error-Reach_example :
    IsBlocked list_fifo text_table (waiting.buckets (sent_again.requests 1).bucket) 1
server_error-Reach_example =
    let (i, limit, busy, queue) = busy_before in
    server_error-Reach list_fifo text_table 1 400 503 silent
      (Reach-IsSound list_fifo text_table history) (rw i) limit (rw i busy) (rw i queue)
      (omega arith) retried_ok (next here (begins plain (7 ∷ [])))

abbrev tired : Requestor
tired = record sent_again { requests = λ r. record (sent_again.requests r) { retry_attempt = 3 } }

transfer_done-retry_limit_example :
    transfer_done list_fifo text_table tired 1 400 (response (too_many_requests true 50) named)
    ≡ abort
unfolding running
transfer_done-retry_limit_example =
    transfer_done-retry_limit list_fifo text_table tired 1 400 true 50 named refl refl

-- The requests in the null bucket before any is sent.
abbrev asked_null : Requestor
asked_null = assign_all list_fifo text_table (record asked { incoming = [] }) asked.incoming
