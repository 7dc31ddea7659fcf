-- ===== src/Rest/Sound/Buckets.antt =====
-- The invariant of the queues through what a response does to the buckets: timeouts, new buckets,
-- the null filter and the numbers of the headers.
use wineberry_discord.Prelude.{
  ℕ, ◌≡◌, ◌<◌, ◌==◌, Bool, false, List, [], ◌∷◌, Option, none, some, arith, Bool-cases, inl, inr,
  refl, if◌then◌else◌,
}
use wineberry_discord.Prelude.Int.{ℤ}
use wineberry_discord.Chash.{Chash}
use wineberry_discord.Fifo.{Fifo}
use wineberry_discord.Rest.{Text, same, null_bucket}
use wineberry_discord.Rest.Queueing.{
  State, bucket_insert, set_bucket, set_timeout, set_global_timeout,
}
use wineberry_discord.Rest.Match.{
  Headers, names_bucket, bucket_find, bucket_init, filter_from, null_filter, match_or_create,
  get_match, populate, build, value_or, long_max,
}
use wineberry_discord.Rest.Sound.{IsSoundBut, only, weaken}
use wineberry_discord.Rest.Sound.Insert.{bucket_insert-IsSoundBut}

module _ (fifo : Fifo) (chash : Chash Text ℕ same) where
  -- A bucket whose transfer is given up in the middle of its response.
  pub set_timeout-IsSoundBut :
      {rl : State fifo chash} (i now wait_ms : ℕ)
      → IsSoundBut fifo chash (only i) rl
      → IsSoundBut fifo chash (only i) (set_timeout fifo chash rl i now wait_ms)
  unfolding set_timeout
  set_timeout-IsSoundBut i now wait_ms s = record {
    pending_iff = λ j. ground (arith, s.pending_iff j);
    once = s.once;
    loose = λ j. ground (arith, s.loose j);
    ready = λ j e. ground (arith, e, s.ready j);
    unused = λ j u. ground (arith, s.unused j);
    known = s.known;
    owned = s.owned;
    singletons = s.singletons;
  }

  pub set_global_timeout-IsSoundBut :
      {rl : State fifo chash} (i now wait_ms : ℕ)
      → IsSoundBut fifo chash (only i) rl
      → IsSoundBut fifo chash (only i) (set_global_timeout fifo chash rl i now wait_ms)
  unfolding set_global_timeout
  set_global_timeout-IsSoundBut i now wait_ms s = record {
    pending_iff = λ j. ground (arith, s.pending_iff j);
    once = s.once;
    loose = λ j. ground (arith, s.loose j);
    ready = λ j e. ground (arith, e, s.ready j);
    unused = λ j u. ground (arith, s.unused j);
    known = s.known;
    owned = s.owned;
    singletons = s.singletons;
  }

  pub populate-IsSoundBut :
      {rl : State fifo chash} {except : ℕ → Bool} (i now : ℕ) (headers : Headers)
      → IsSoundBut fifo chash except rl
      → IsSoundBut fifo chash except (populate fifo chash rl i now headers)
  unfolding populate
  populate-IsSoundBut i now headers s = record {
    pending_iff = λ j. ground (arith, s.pending_iff j);
    once = ground (arith, s.once);
    loose = λ j. ground (arith, s.loose j);
    ready = λ j e. ground (arith, e, s.ready j);
    unused = λ j u. ground (arith, s.unused j);
    known = λ key j e. ground (arith, s.known key j, e);
    owned = λ r. ground (arith, s.owned r);
    singletons = ground (arith, s.singletons);
  }

  pub bucket_init-IsSoundBut :
      {rl : State fifo chash} {except : ℕ → Bool} (key : Text) (limit : ℤ)
      → IsSoundBut fifo chash except rl
      → IsSoundBut fifo chash except (bucket_init fifo chash rl key limit)
  unfolding bucket_init
  bucket_init-IsSoundBut {rl} key limit s = record {
    pending_iff = λ j. ground (arith, s.pending_iff j, s.unused rl.created);
    once = s.once;
    loose = λ j. ground (arith, s.loose j, fifo.to_list-empty);
    ready = λ j e. ground (arith, e, s.ready j);
    unused = λ j u. ground (arith, s.unused j);
    known = λ k j e. ground (arith, s.known k j, chash.lookup-assign rl.routes key rl.created k);
    owned = λ r. omega (arith, s.owned r);
    singletons = omega (arith, s.singletons);
  }

  pub filter_from-IsSoundBut :
      (rl : State fifo chash) {except : ℕ → Bool} (target : ℕ) (key : Text) (queue : List ℕ)
      → IsSoundBut fifo chash except rl
      → target < rl.created
      → IsSoundBut fifo chash except (filter_from fifo chash rl target key queue)
  unfolding filter_from
  filter_from-IsSoundBut rl target key [] s h = s
  filter_from-IsSoundBut rl {except} target key (r ∷ rs) s h =
      let target' = if same (rl.requests r).key key then target else null_bucket in
      let h' : target' < rl.created = ground (arith, h, s.singletons) in
      filter_from-IsSoundBut (bucket_insert fifo chash rl target' r false) target' key rs
        (weaken fifo chash except (λ i e. ground (arith, e))
          (bucket_insert-IsSoundBut fifo chash target' r false s h'))
        (unfold bucket_insert in h')

  pub null_filter-IsSoundBut :
      {rl : State fifo chash} (target : ℕ) (key : Text)
      → IsSoundBut fifo chash (only null_bucket) rl
      → target < rl.created
      → IsSoundBut fifo chash (only null_bucket) (null_filter fifo chash rl target key)
  unfolding null_filter
  null_filter-IsSoundBut {rl} target key s h =
      let b = rl.buckets null_bucket in
      filter_from-IsSoundBut (set_bucket fifo chash rl null_bucket (record b { next = fifo.empty }))
        target key (fifo.to_list b.next)
        (record {
          pending_iff = λ j. ground (arith, s.pending_iff j);
          once = s.once;
          loose = λ j. ground (arith, s.loose j, fifo.to_list-empty);
          ready = λ j e. ground (arith, e, s.ready j);
          unused = λ j u. ground (arith, s.unused j);
          known = s.known;
          owned = s.owned;
          singletons = s.singletons;
        })
        h

  find-lt-created :
      {rl : State fifo chash} {except : ℕ → Bool} (key : Text) {i : ℕ}
      → IsSoundBut fifo chash except rl
      → bucket_find fifo chash rl key ≡ some i
      → i < rl.created
  unfolding bucket_find
  find-lt-created key {i} s e = s.known key i (ground (arith, e))

  match_or_create-IsSoundBut :
      {rl : State fifo chash} {except : ℕ → Bool} (key : Text) (headers : Headers)
      (found : Option ℕ)
      → bucket_find fifo chash rl key ≡ found
      → IsSoundBut fifo chash except rl
      → IsSoundBut fifo chash except (match_or_create fifo chash rl key headers found).0
        × ((match_or_create fifo chash rl key headers found).1
            < (match_or_create fifo chash rl key headers found).0.created)
  match_or_create-IsSoundBut key headers (some i) e s = (s, find-lt-created key s e)
  match_or_create-IsSoundBut {rl} {except} key headers none e s =
      elim (Bool-cases (names_bucket headers)) [
        | inl y ↦ rw y (
          bucket_init-IsSoundBut key (value_or headers.limit long_max) s,
          unfold bucket_init in (omega arith),
        )
        | inr n ↦ rw n (s, omega (arith, s.singletons))
      ]

  pub build-IsSoundBut :
      {rl : State fifo chash} (i : ℕ) (key : Text) (now : ℕ) (headers : Headers)
      → IsSoundBut fifo chash (only i) rl
      → IsSoundBut fifo chash (only i) (build fifo chash rl i key now headers)
  unfolding build get_match
  build-IsSoundBut {rl} i key now headers s = elim (Bool-cases (i == null_bucket)) [
    | inl y ↦
        let (s', h) =
          match_or_create-IsSoundBut key headers (bucket_find fifo chash rl key) refl
            (weaken fifo chash (only null_bucket) (λ j e. ground (arith, e, y)) s) in
        rw y (
          weaken fifo chash (only i) (λ j e. ground (arith, e, y))
            (populate-IsSoundBut
              (match_or_create fifo chash rl key headers (bucket_find fifo chash rl key)).1 now
              headers (null_filter-IsSoundBut _ key s' h)))
    | inr n ↦ rw n (populate-IsSoundBut i now headers s)
  ]
