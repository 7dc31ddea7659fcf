-- ===== src/Rest/Select.antt =====
-- winecord-rest_ratelimit.c: what a pass of `winecord_bucket_request_selector` does for each pending
-- bucket.
use wineberry_discord.Prelude.{
  ℕ, ◌≡◌, ◌==◌, ◌&&◌, Bool, true, false, List, [], ◌∷◌, ◌++◌, list_cases, inl, inr, arith,
  if◌then◌else◌, append-nil,
}
use wineberry_discord.Prelude.Int.{ℤ}
use wineberry_discord.Chash.{Chash}
use wineberry_discord.Fifo.{Fifo, remove_head}
use wineberry_discord.Rest.{Text, same, Busy, idle, timeout, request, Out, sends, wakes, ok, Bucket}
use wineberry_discord.Rest.Queueing.{
  State, is_zero, select_bucket, wait_until, try_timeout, emit, set_bucket, unlink, keep_pending,
}

-- What a bucket may do in its turn. A bucket that is `stuck` has its turn, yet nothing to send.
pub data Move : Type 0 where
  skips waits stuck : Move
  starts : ℕ → List ℕ → Move

abbrev pub idle_move : Bool → List ℕ → Move
idle_move true rs = waits
idle_move false [] = stuck
idle_move false (r ∷ rs) = starts r rs

abbrev pub move_of : Busy → ℤ → List ℕ → Move
move_of idle remaining rs = idle_move (is_zero remaining) rs
move_of timeout remaining rs = skips
move_of (request r) remaining rs = skips

abbrev pub is_stuck : Move → Bool
is_stuck stuck = true
is_stuck _ = false

abbrev pub spoken : Move → ℕ → ℕ → List Out
spoken waits i wait = wakes i wait ∷ []
spoken (starts r rs) i wait = sends r ∷ []
spoken _ i wait = []

-- A bucket leaves the pending queue when it has sent its last request.
abbrev pub stays : Move → Bool
stays (starts r []) = false
stays _ = true

abbrev pub busy_after : Move → Busy → Busy
busy_after waits busy = timeout
busy_after (starts r rs) busy = request r
busy_after _ busy = busy

abbrev pub queue_after : Move → List ℕ → List ℕ
queue_after (starts r rs) queue = rs
queue_after _ queue = queue

module _ (fifo : Fifo) (chash : Chash Text ℕ same) where
  abbrev pub move : Bucket fifo → Move
  move b = move_of b.busy_req b.remaining (fifo.to_list b.next)

  abbrev pub says : State fifo chash → ℕ → ℕ → List Out
  says rl i now = spoken (move (rl.buckets i)) i (wait_until fifo chash rl i now)

  -- What the turn of a bucket makes of it.
  pub record Moved (b b' : Bucket fifo) : Type 0 where
    pub busy_is : b'.busy_req ≡ busy_after (move b) b.busy_req
    pub queue_is : fifo.to_list b'.next ≡ queue_after (move b) (fifo.to_list b.next)
    pub linked_is : b'.linked ≡ (stays (move b) && b.linked)

  -- What a pass leaves alone.
  pub record Kept (rl rl' : State fifo chash) : Type 0 where
    pub same_wait : rl'.global_wait ≡ rl.global_wait
    pub same_routes : rl'.routes ≡ rl.routes
    pub same_created : rl'.created ≡ rl.created
    pub same_requests : rl'.requests ≡ rl.requests

  pub record Turned (rl rl' : State fifo chash) (i now : ℕ) : Type 0 where
    pub out_is : rl'.out ≡ rl.out ++ says rl i now
    pub bucket_is : Moved (rl.buckets i) (rl'.buckets i)
    pub pending_is :
        fifo.to_list rl'.pending
        ≡ fifo.to_list rl.pending ++ (if stays (move (rl.buckets i)) then i ∷ [] else [])
    pub others : (j : ℕ) → (i == j) ≡ false → rl'.buckets j ≡ rl.buckets j
    pub kept : Kept rl rl'

  -- The state after a turn.
  abbrev pub after_move : Move → State fifo chash → ℕ → ℕ → State fifo chash
  after_move skips rl i now = keep_pending fifo chash rl i
  after_move stuck rl i now = rl
  after_move waits rl i now = keep_pending fifo chash (try_timeout fifo chash rl i now) i
  after_move (starts r rs) rl i now =
      let b = rl.buckets i in
      let b' = record b { next = fifo.remove r b.next; busy_req = request r } in
      let rl' = emit fifo chash (sends r) (set_bucket fifo chash rl i b') in
      elim rs [ [] ↦ unlink fifo chash rl' i | s ∷ ss ↦ keep_pending fifo chash rl' i ]

  abbrev pub after_turn : State fifo chash → ℕ → ℕ → State fifo chash
  after_turn rl i now = after_move (move (rl.buckets i)) rl i now

  pub select_bucket-after_turn :
      (rl : State fifo chash) (i now : ℕ)
      → is_stuck (move (rl.buckets i)) ≡ false
      → select_bucket fifo chash rl i now ≡ ok (after_turn rl i now)
  unfolding select_bucket
  select_bucket-after_turn rl i now h = elim (list_cases (fifo.to_list (rl.buckets i).next)) [
    | inl e ↦ ground (arith, h, e)
    | inr (r, rs, e) ↦
        let q = (rl.buckets i).next in
        ground
          (arith, h, e, fifo.head?_lem q, remove_head fifo q e, fifo.head?_lem (fifo.remove r q))
  ]

  pub after_turn-Turned :
      (rl : State fifo chash) (i now : ℕ)
      → is_stuck (move (rl.buckets i)) ≡ false
      → Turned rl (after_turn rl i now) i now
  unfolding try_timeout
  after_turn-Turned rl i now h = record {
    out_is = ground (arith, h, append-nil rl.out);
    bucket_is = elim (list_cases (fifo.to_list (rl.buckets i).next)) [
      | inl e ↦ ground (arith, h, e)
      | inr (r, rs, e) ↦ ground (arith, h, e, remove_head fifo (rl.buckets i).next e)
    ];
    pending_is =
        ground
          (arith, h, append-nil (fifo.to_list rl.pending), fifo.to_list-insert_tail i rl.pending);
    others = λ j n. ground (arith, n);
    kept = ground arith;
  }
