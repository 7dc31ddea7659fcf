-- ===== src/Rest/Filter.antt =====
-- winecord-rest_ratelimit.c: which requests the null filter moves, and what the requests of a key
-- find once a response has named their bucket.
use wineberry_discord.Prelude.{
  ℕ, ◌≡◌, ◌==◌, ◌&&◌, not, false, List, [], ◌∷◌, ◌++◌, arith, Bool-cases, inl, inr, refl,
  if◌then◌else◌, ◌∙◌, ==_iff, append-nil, append_assoc,
}
use wineberry_discord.Chash.{Chash, is_some}
use wineberry_discord.Fifo.{Fifo}
use wineberry_discord.Rest.{Text, same, Request, null_bucket}
use wineberry_discord.Rest.Queueing.{State, bucket_insert, set_bucket}
use wineberry_discord.Rest.Match.{
  Headers, names_bucket, bucket_find, bucket_get, bucket_init, filter_from, null_filter,
  match_or_create, get_match, populate, build,
}

-- The requests at the front of a queue that have a key, and the rest of the queue.
abbrev pub matching : (ℕ → Request) → Text → List ℕ → List ℕ
matching requests key [] = []
matching requests key (r ∷ rs) =
    if same (requests r).key key then r ∷ matching requests key rs else []

abbrev pub unmatched : (ℕ → Request) → Text → List ℕ → List ℕ
unmatched requests key [] = []
unmatched requests key (r ∷ rs) =
    if same (requests r).key key then unmatched requests key rs else r ∷ rs

-- The filter changes the buckets of requests, and no key.
SameKeys : (ℕ → Request) → (ℕ → Request) → Type 0
SameKeys requests requests' = (r : ℕ) → (requests' r).key ≡ (requests r).key

matching-SameKeys :
    (requests requests' : ℕ → Request) (key : Text) (queue : List ℕ)
    → SameKeys requests requests'
    → (matching requests' key queue ≡ matching requests key queue)
      × (unmatched requests' key queue ≡ unmatched requests key queue)
unfolding SameKeys
matching-SameKeys requests requests' key [] h = (refl, refl)
matching-SameKeys requests requests' key (r ∷ rs) h =
    let (m, u) = matching-SameKeys requests requests' key rs h in
    (ground (arith, h r, m), ground (arith, h r, u))

module _ (fifo : Fifo) (chash : Chash Text ℕ same) where
  abbrev queue_of : State fifo chash → ℕ → List ℕ
  queue_of rl i = fifo.to_list (rl.buckets i).next

  bucket_insert-queues :
      (rl : State fifo chash) (i r j : ℕ)
      → (queue_of (bucket_insert fifo chash rl i r false) j
          ≡ (if i == j then queue_of rl j ++ r ∷ [] else queue_of rl j))
        × SameKeys rl.requests (bucket_insert fifo chash rl i r false).requests
  unfolding bucket_insert SameKeys
  bucket_insert-queues rl i r j = (
    elim (Bool-cases (i == j)) [
      | inl y ↦ ground (arith, y, (==_iff i j).0 y, fifo.to_list-insert_tail r (rl.buckets i).next)
      | inr n ↦ ground (arith, n)
    ],
    λ q. ground arith,
  )

  -- From the first request with another key on, all go back.
  filter_from-null :
      (rl : State fifo chash) (key : Text) (queue : List ℕ) (j : ℕ)
      → queue_of (filter_from fifo chash rl null_bucket key queue) j
        ≡ (if null_bucket == j then queue_of rl j ++ queue else queue_of rl j)
  unfolding filter_from
  filter_from-null rl key [] j = ground (arith, append-nil (queue_of rl j))
  filter_from-null rl key (r ∷ rs) j = ground (
    arith,
    filter_from-null (bucket_insert fifo chash rl null_bucket r false) key rs j,
    (bucket_insert-queues rl null_bucket r j).0,
    append_assoc (queue_of rl j) (r ∷ []) rs,
  )

  filter_from-queues :
      (rl : State fifo chash) (target : ℕ) (key : Text) (queue : List ℕ) (j : ℕ)
      → (null_bucket == target) ≡ false
      → queue_of (filter_from fifo chash rl target key queue) j ≡ (
          if target == j
          then queue_of rl j ++ matching rl.requests key queue
          else (if null_bucket == j
              then queue_of rl j ++ unmatched rl.requests key queue
              else queue_of rl j))
  unfolding filter_from
  filter_from-queues rl target key [] j n = ground (arith, append-nil (queue_of rl j))
  filter_from-queues rl target key (r ∷ rs) j n = elim (Bool-cases (same (rl.requests r).key key)) [
    | inl y ↦
        let rl' = bucket_insert fifo chash rl target r false in
        let (q, k) = bucket_insert-queues rl target r j in
        let (m, u) = matching-SameKeys rl.requests rl'.requests key rs k in
        ground (
          arith,
          y,
          n,
          q,
          m,
          u,
          filter_from-queues rl' target key rs j n,
          append_assoc (queue_of rl j) (r ∷ []) (matching rl.requests key rs),
        )
    | inr m ↦ ground (
      arith,
      m,
      n,
      filter_from-null (bucket_insert fifo chash rl null_bucket r false) key rs j,
      (bucket_insert-queues rl null_bucket r j).0,
      append_assoc (queue_of rl j) (r ∷ []) rs,
      append-nil (queue_of rl j),
    )
  ]

  -- The null filter moves the requests at the front of the null bucket that have the key to the end
  -- of the bucket that was found, in order. From the first request with another key on, all stay in
  -- the null bucket, also those that have the key. No other queue changes.
  pub null_filter-queues :
      (rl : State fifo chash) (target : ℕ) (key : Text) (j : ℕ)
      → (null_bucket == target) ≡ false
      → queue_of (null_filter fifo chash rl target key) j ≡ (
          if target == j
          then queue_of rl j ++ matching rl.requests key (queue_of rl null_bucket)
          else (if null_bucket == j
              then unmatched rl.requests key (queue_of rl null_bucket)
              else queue_of rl j))
  unfolding null_filter
  null_filter-queues rl target key j n =
      let b = rl.buckets null_bucket in
      let rl' = set_bucket fifo chash rl null_bucket (record b { next = fifo.empty }) in
      ground
        (arith, n, fifo.to_list-empty, filter_from-queues rl' target key (fifo.to_list b.next) j n)

  filter_from-routes :
      (rl : State fifo chash) (target : ℕ) (key : Text) (queue : List ℕ)
      → (filter_from fifo chash rl target key queue).routes ≡ rl.routes
  unfolding filter_from
  filter_from-routes rl target key [] = refl
  filter_from-routes rl target key (r ∷ rs) =
      let target' = if same (rl.requests r).key key then target else null_bucket in
      filter_from-routes (bucket_insert fifo chash rl target' r false) target' key rs
      ∙ unfold bucket_insert in refl

  build-routes :
      (rl : State fifo chash) (i : ℕ) (key : Text) (now : ℕ) (headers : Headers)
      → (build fifo chash rl i key now headers).routes ≡ (
          if i == null_bucket
          then (match_or_create fifo chash rl key headers (bucket_find fifo chash rl key)).0.routes
          else rl.routes)
  unfolding build get_match populate null_filter
  build-routes rl i key now headers =
      let m = match_or_create fifo chash rl key headers (bucket_find fifo chash rl key) in
      let b = m.0.buckets null_bucket in
      ground (
        arith,
        filter_from-routes (set_bucket fifo chash m.0 null_bucket (record b { next = fifo.empty }))
            m.1 key (fifo.to_list b.next),
      )

  -- The response to a request of the null bucket: if its key was not known and the response names a
  -- bucket, the key has a new bucket from then on. All other keys have the buckets that they had,
  -- and so has every key at any other response.
  pub bucket_get-build :
      (rl : State fifo chash) (i : ℕ) (key other : Text) (now : ℕ) (headers : Headers)
      → bucket_get fifo chash (build fifo chash rl i key now headers) other ≡ (
          if (i == null_bucket)
            && (not (is_some (bucket_find fifo chash rl key))
                && (names_bucket headers && same key other))
          then rl.created
          else bucket_get fifo chash rl other)
  unfolding bucket_get bucket_init
  bucket_get-build rl i key other now headers = ground (
    arith,
    build-routes rl i key now headers,
    chash.contains_lem (build fifo chash rl i key now headers).routes other,
    chash.contains_lem rl.routes other,
    chash.lookup-assign rl.routes key rl.created other,
  )
