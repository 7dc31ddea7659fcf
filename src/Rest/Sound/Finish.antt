-- ===== src/Rest/Sound/Finish.antt =====
-- The invariant of the queues through the end of a transfer.
use wineberry_discord.Prelude.{
  ℕ, ◌+◌, ◌≡◌, ◌≤◌, ◌<◌, ◌==◌, Bool, true, false, List, [], ◌∷◌, Option, ltb, arith, Bool-cases,
  inl, inr, refl, if◌then◌else◌, ==_iff, ap, ◌∙◌, subst, sym,
}
use wineberry_discord.Chash.{Chash}
use wineberry_discord.Fifo.{Fifo, erase}
use wineberry_discord.Rest.{
  Text, same, null_bucket, Result, abort, ok, not_aborted, update, Request,
}
use wineberry_discord.Rest.Queueing.{
  State, bucket_insert, set_timeout, set_global_timeout, request_unselect,
}
use wineberry_discord.Rest.Match.{
  Headers, bucket_find, bucket_init, filter_from, null_filter, match_or_create, get_match, populate,
  build_fails, build,
}
use wineberry_discord.Rest.Transfer.{
  Status, success, internal, http_error, too_many_requests, Done, response, curl_error,
  info_extract, request_retry, retry_or_finish, transfer_done, finish, unselect,
}
use wineberry_discord.Rest.Pass.{member, distinct}
use wineberry_discord.Rest.Sound.{IsSoundBut, IsSound, none_but, only, weaken}
use wineberry_discord.Rest.Sound.Insert.{bucket_insert-IsSoundBut}
use wineberry_discord.Rest.Sound.Buckets.{
  set_timeout-IsSoundBut, set_global_timeout-IsSoundBut, build-IsSoundBut,
}

-- Taking one element out of a list without repetitions.
member-erase :
    (i j : ℕ) (is : List ℕ)
    → distinct is ≡ true
    → member j (erase i is) ≡ (if i == j then false else member j is)
member-erase i j [] d = ground arith
member-erase i j (k ∷ is) d = ground (arith, d, member-erase i j is)

distinct-erase : (i : ℕ) (is : List ℕ) → distinct is ≡ true → distinct (erase i is) ≡ true
distinct-erase i [] d = refl
distinct-erase i (k ∷ is) d = ground (arith, d, distinct-erase i is, member-erase i k is)

module _ (fifo : Fifo) (chash : Chash Text ℕ same) where
  pub request_unselect-IsSound :
      (rl : State fifo chash) (i r : ℕ) {rl' : State fifo chash}
      → IsSoundBut fifo chash (only i) rl
      → i < rl.created
      → request_unselect fifo chash rl i r ≡ ok rl'
      → IsSound fifo chash rl'
  unfolding request_unselect
  request_unselect-IsSound rl i r {rl'} s h e = record {
    pending_iff = λ j. ground (
      arith,
      s.pending_iff j,
      member-erase i j (fifo.to_list rl.pending),
      s.once,
      fifo.to_list-remove i rl.pending,
    );
    once = ground (
      arith,
      s.once,
      distinct-erase i (fifo.to_list rl.pending),
      fifo.to_list-remove i rl.pending,
    );
    loose = λ j. ground (arith, s.loose j, fifo.head?_lem (rl.buckets i).next);
    ready = λ j n. ground (arith, n, s.ready j, fifo.head?_lem (rl.buckets i).next);
    unused = λ j u. ground (arith, s.unused j);
    known = λ key j k. ground (arith, s.known key j);
    owned = λ q. ground (arith, s.owned q);
    singletons = ground (arith, s.singletons);
  }

  finish-IsSound :
      (rl : State fifo chash) (r : ℕ)
      → IsSound fifo chash rl
      → IsSound fifo chash (finish fifo chash rl r)
  finish-IsSound rl r s = elim (Bool-cases (rl.requests r).sync) [
    | inl y ↦ rw y (record {
      pending_iff = s.pending_iff;
      once = s.once;
      loose = s.loose;
      ready = s.ready;
      unused = s.unused;
      known = s.known;
      owned = s.owned;
      singletons = s.singletons;
    })
    | inr n ↦ rw n (record {
      pending_iff = s.pending_iff;
      once = s.once;
      loose = s.loose;
      ready = s.ready;
      unused = s.unused;
      known = s.known;
      owned = s.owned;
      singletons = s.singletons;
    })
  ]

  unselect-IsSound :
      (rl : State fifo chash) (r : ℕ) (res : Result (State fifo chash)) {rl' : State fifo chash}
      → request_unselect fifo chash rl (rl.requests r).bucket r ≡ res
      → IsSoundBut fifo chash (only (rl.requests r).bucket) rl
      → unselect fifo chash rl r ≡ ok rl'
      → IsSound fifo chash rl'
  unselect-IsSound rl r abort u s e = cc
  unselect-IsSound rl r (ok rl₁) u s e =
      subst (IsSound fifo chash) (ground (arith, u, e)) (
        finish-IsSound rl₁ r (request_unselect-IsSound rl (rl.requests r).bucket r s (s.owned r) u))

  counted : State fifo chash → ℕ → State fifo chash
  counted rl r =
      let q = rl.requests r in
      record rl {
        requests = update rl.requests r (record q { retry_attempt = q.retry_attempt + 1 });
      }

  counted-IsSoundBut :
      {rl : State fifo chash} {except : ℕ → Bool} (r : ℕ)
      → IsSoundBut fifo chash except rl
      → IsSoundBut fifo chash except (counted rl r)
  unfolding counted
  counted-IsSoundBut r s = record {
    pending_iff = s.pending_iff;
    once = s.once;
    loose = s.loose;
    ready = s.ready;
    unused = s.unused;
    known = s.known;
    owned = λ q. ground (arith, s.owned q, s.owned r);
    singletons = s.singletons;
  }

  pub retry_or_finish-IsSound :
      (rl : State fifo chash) (r : ℕ) (retry : Bool) {rl' : State fifo chash}
      → IsSoundBut fifo chash (only (rl.requests r).bucket) rl
      → retry_or_finish fifo chash rl r retry ≡ ok rl'
      → IsSound fifo chash rl'
  unfolding retry_or_finish request_retry counted
  retry_or_finish-IsSound rl r false s e = unselect-IsSound rl r _ refl s e
  retry_or_finish-IsSound rl r true s e =
      let s' = counted-IsSoundBut r s in
      let i = (rl.requests r).bucket in
      elim (Bool-cases (ltb (rl.requests r).retry_attempt rl.retry_limit)) [
        | inl y ↦ subst (IsSound fifo chash) (ground (arith, y, e)) (
            weaken fifo chash none_but (λ j n. ground arith)
              (bucket_insert-IsSoundBut fifo chash i r true s' (s.owned r)))
        | inr n ↦
            unselect-IsSound (counted rl r) r _ refl
              (weaken fifo chash (only ((counted rl r).requests r).bucket)
                (λ j n. ground (arith, n)) s')
              (ground (arith, n, e))
      ]

  -- A request that is in no queue is left alone by the null filter.
  filter_from-requests :
      (rl : State fifo chash) (target : ℕ) (key : Text) (queue : List ℕ) (r : ℕ)
      → member r queue ≡ false
      → (filter_from fifo chash rl target key queue).requests r ≡ rl.requests r
  unfolding filter_from
  filter_from-requests rl target key [] r h = refl
  filter_from-requests rl target key (q ∷ qs) r h =
      let target' = if same (rl.requests q).key key then target else null_bucket in
      filter_from-requests (bucket_insert fifo chash rl target' q false) target' key qs r
        (ground (arith, h))
      ∙ unfold bucket_insert in ground (arith, h)

  match_or_create-kept :
      (rl : State fifo chash) (key : Text) (headers : Headers) (found : Option ℕ)
      → 2 ≤ rl.created
      → let rl' = (match_or_create fifo chash rl key headers found).0 in
        (rl'.requests ≡ rl.requests) × (rl'.buckets null_bucket ≡ rl.buckets null_bucket)
  unfolding bucket_init
  match_or_create-kept rl key headers found h = ground arith

  null_filter-requests :
      (rl : State fifo chash) (target : ℕ) (key : Text) (r : ℕ)
      → member r (fifo.to_list (rl.buckets null_bucket).next) ≡ false
      → (null_filter fifo chash rl target key).requests r ≡ rl.requests r
  unfolding null_filter
  null_filter-requests rl target key r h = filter_from-requests _ target key _ r h

  pub build-requests :
      (rl : State fifo chash) (i : ℕ) (key : Text) (now : ℕ) (headers : Headers) (r : ℕ)
      → 2 ≤ rl.created
      → member r (fifo.to_list (rl.buckets i).next) ≡ false
      → (build fifo chash rl i key now headers).requests r ≡ rl.requests r
  unfolding build get_match populate
  build-requests rl i key now headers r c h = elim (Bool-cases (i == null_bucket)) [
    | inl y ↦
        let m = match_or_create fifo chash rl key headers (bucket_find fifo chash rl key) in
        let (k, b) = match_or_create-kept rl key headers (bucket_find fifo chash rl key) c in
        let f =
          null_filter-requests m.0 m.1 key r (ground (arith, h, b, (==_iff i null_bucket).0 y)) in
        ground (arith, y, f, k)
    | inr n ↦ ground (arith, n)
  ]

  pub info_extract-kept :
      (rl : State fifo chash) (r now : ℕ) (status : Status)
      → let rl' = (info_extract fifo chash rl r now status).0 in
        (rl'.requests ≡ rl.requests)
        × (rl'.created ≡ rl.created)
        × ((i : ℕ) → (rl'.buckets i).next ≡ (rl.buckets i).next)
  unfolding info_extract set_timeout set_global_timeout
  info_extract-kept rl r now status = (ground arith, ground arith, λ i. ground arith)

  info_extract-IsSoundBut :
      (rl : State fifo chash) (r now : ℕ) (status : Status)
      → IsSoundBut fifo chash (only (rl.requests r).bucket) rl
      → IsSoundBut fifo chash
          (only (rl.requests r).bucket)
          (info_extract fifo chash rl r now status).0
  unfolding info_extract
  info_extract-IsSoundBut rl r now success s = s
  info_extract-IsSoundBut rl r now internal s = s
  info_extract-IsSoundBut rl r now (http_error code) s = s
  info_extract-IsSoundBut rl r now (too_many_requests true wait_ms) s =
      set_global_timeout-IsSoundBut fifo chash (rl.requests r).bucket now wait_ms s
  info_extract-IsSoundBut rl r now (too_many_requests false wait_ms) s =
      set_timeout-IsSoundBut fifo chash (rl.requests r).bucket now wait_ms s

  pub transfer_done-IsSound :
      (rl : State fifo chash) (r now : ℕ) (done : Done) {rl' : State fifo chash}
      → IsSound fifo chash rl
      → member r (fifo.to_list (rl.buckets (rl.requests r).bucket).next) ≡ false
      → transfer_done fifo chash rl r now done ≡ ok rl'
      → IsSound fifo chash rl'
  unfolding transfer_done
  transfer_done-IsSound rl r now (curl_error is_read_error) s h e =
      retry_or_finish-IsSound rl r is_read_error
        (weaken fifo chash (only (rl.requests r).bucket) (λ i n. refl) s) e
  transfer_done-IsSound rl r now (response status headers) s h e =
      let i = (rl.requests r).bucket in
      let rl₁ = (info_extract fifo chash rl r now status).0 in
      let (k, c, b) = info_extract-kept rl r now status in
      let s₁ =
        info_extract-IsSoundBut rl r now status (weaken fifo chash (only i) (λ j n. refl) s) in
      let same_bucket : (rl₁.requests r).bucket ≡ i = ap (λ f. (f r).bucket) k in
      let s₁' = subst (λ j. IsSoundBut fifo chash (only j) rl₁) (sym same_bucket) s₁ in
      let j = (rl₁.requests r).bucket in
      let rl₂ = build fifo chash rl₁ j (rl₁.requests r).key now headers in
      let s₂ = build-IsSoundBut fifo chash j (rl₁.requests r).key now headers s₁' in
      let k₂ : rl₂.requests r ≡ rl₁.requests r =
        build-requests rl₁ j (rl₁.requests r).key now headers r (ground (arith, c, s.singletons))
          (ground (arith, h, b i, same_bucket)) in
      retry_or_finish-IsSound rl₂ r (info_extract fifo chash rl r now status).1
        (subst (λ (q : Request). IsSoundBut fifo chash (only q.bucket) rl₂) (sym k₂) s₂)
        (not_aborted (build_fails fifo chash rl₁ j (rl₁.requests r).key headers) _ e)
