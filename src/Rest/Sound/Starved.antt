-- ===== src/Rest/Sound/Starved.antt =====
-- A request that is retried after an error of the server is never sent again.
use wineberry_discord.Prelude.{
  ℕ, ◌+◌, ◌≡◌, ◌≤◌, ◌<◌, ◌==◌, Bool, true, false, List, [], ◌∷◌, ltb, arith, Bool-cases, inl, inr,
  refl, ap, subst, ==_iff,
}
use wineberry_discord.Chash.{Chash}
use wineberry_discord.Fifo.{Fifo}
use wineberry_discord.Rest.{Text, same, ok, not_aborted, request, null_bucket}
use wineberry_discord.Rest.Queueing.{
  State, bucket_insert, wake, set_request, request_unselect, set_timeout, set_global_timeout,
}
use wineberry_discord.Rest.Match.{Headers, build_fails, build}
use wineberry_discord.Rest.Transfer.{
  Status, Done, response, curl_error, http_error, transfer_done, assign_all, start_pending,
  request_cancel, cancel_all, dispatch_responses, info_extract, request_retry, retry_or_finish,
  unselect,
}
use wineberry_discord.Rest.Begin.{request_begin}
use wineberry_discord.Rest.Again.{transfer_done-server_error}
use wineberry_discord.Rest.Pass.{member}
use wineberry_discord.Rest.Sound.{IsSound}
use wineberry_discord.Rest.Sound.Finish.{build-requests, info_extract-kept, transfer_done-IsSound}
use wineberry_discord.Rest.Sound.Blocked.{
  IsBlocked, Blocked, bucket_insert-Blocked, assign_all-Blocked, request_selector-Blocked,
  build-Blocked,
}
use wineberry_discord.Rest.Sound.History.{
  Step, begins, starts, done, wakes, dispatches, returns, Reach, here, next, assign_all-IsSound,
  emptied-IsSound, Step-IsSound,
}

module _ (fifo : Fifo) (chash : Chash Text ℕ same) where
  Blocked-lt-created :
      (rl : State fifo chash) (i r : ℕ)
      → IsSound fifo chash rl
      → Blocked fifo chash rl i r
      → i < rl.created
  Blocked-lt-created rl i r s k = ground (arith, s.unused i, k.busy_is)

  info_extract-Blocked :
      (rl : State fifo chash) (i r q now : ℕ) (status : Status)
      → ((rl.requests q).bucket == i) ≡ false
      → Blocked fifo chash rl i r
      → Blocked fifo chash (info_extract fifo chash rl q now status).0 i r
  unfolding info_extract set_timeout set_global_timeout
  info_extract-Blocked rl i r q now status n k = record {
    busy_is = ground (arith, n, k.busy_is);
    queued = ground (arith, n, k.queued);
  }

  unselect-Blocked :
      (rl : State fifo chash) (i r q : ℕ) {rl' : State fifo chash}
      → ((rl.requests q).bucket == i) ≡ false
      → Blocked fifo chash rl i r
      → unselect fifo chash rl q ≡ ok rl'
      → Blocked fifo chash rl' i r
  unfolding request_unselect
  unselect-Blocked rl i r q n k e = record {
    busy_is = ground (arith, n, k.busy_is, e);
    queued = ground (arith, n, k.queued, e);
  }

  retry_or_finish-Blocked :
      (rl : State fifo chash) (i r q : ℕ) (retry : Bool) {rl' : State fifo chash}
      → ((rl.requests q).bucket == i) ≡ false
      → Blocked fifo chash rl i r
      → retry_or_finish fifo chash rl q retry ≡ ok rl'
      → Blocked fifo chash rl' i r
  unfolding retry_or_finish request_retry
  retry_or_finish-Blocked rl i r q false n k e = unselect-Blocked rl i r q n k e
  retry_or_finish-Blocked rl i r q true {rl'} n k e =
      let p = rl.requests q in
      let rl₁ = set_request fifo chash rl q (record p { retry_attempt = p.retry_attempt + 1 }) in
      let k₁ : Blocked fifo chash rl₁ i r = record { busy_is = k.busy_is; queued = k.queued } in
      elim (Bool-cases (ltb p.retry_attempt rl.retry_limit)) [
        | inl y ↦
            let same_state : bucket_insert fifo chash rl₁ p.bucket q true ≡ rl' =
              ground (arith, y, e) in
            subst (λ rl. Blocked fifo chash rl i r) same_state
              (bucket_insert-Blocked fifo chash rl₁ i r p.bucket q true k₁)
        | inr m ↦
            unselect-Blocked rl₁ i r q {rl' = rl'} (ground (arith, n)) k₁ (ground (arith, m, e))
      ]

  transfer_done-Blocked :
      (rl : State fifo chash) (i r q now : ℕ) (d : Done) {rl' : State fifo chash}
      → IsSound fifo chash rl
      → (null_bucket == i) ≡ false
      → ((rl.requests q).bucket == i) ≡ false
      → member q (fifo.to_list (rl.buckets (rl.requests q).bucket).next) ≡ false
      → Blocked fifo chash rl i r
      → transfer_done fifo chash rl q now d ≡ ok rl'
      → Blocked fifo chash rl' i r
  unfolding transfer_done
  transfer_done-Blocked rl i r q now (curl_error is_read_error) s z n m k e =
      retry_or_finish-Blocked rl i r q is_read_error n k e
  transfer_done-Blocked rl i r q now (response status headers) s z n m k e =
      let rl₁ = (info_extract fifo chash rl q now status).0 in
      let (f, c, b) = info_extract-kept fifo chash rl q now status in
      let j = (rl₁.requests q).bucket in
      let same_bucket : j ≡ (rl.requests q).bucket = ap (λ f. (f q).bucket) f in
      let k₁ = info_extract-Blocked rl i r q now status n k in
      let rl₂ = build fifo chash rl₁ j (rl₁.requests q).key now headers in
      let k₂ =
        build-Blocked fifo chash rl₁ i r j (rl₁.requests q).key now headers z
          (ground (arith, c, Blocked-lt-created rl i r s k)) k₁ in
      let f₂ : rl₂.requests q ≡ rl₁.requests q =
        build-requests fifo chash rl₁ j (rl₁.requests q).key now headers q
          (ground (arith, c, s.singletons)) (ground (arith, m, b j, same_bucket)) in
      retry_or_finish-Blocked rl₂ i r q (info_extract fifo chash rl q now status).1
        (ground (arith, n, f₂, same_bucket)) k₂
        (not_aborted (build_fails fifo chash rl₁ j (rl₁.requests q).key headers) _ e)

  cancel_all-buckets :
      (rl : State fifo chash) (queue : List ℕ)
      → (cancel_all fifo chash rl queue).buckets ≡ rl.buckets
  unfolding cancel_all request_cancel
  cancel_all-buckets rl [] = refl
  cancel_all-buckets rl (q ∷ qs) = cancel_all-buckets (request_cancel fifo chash rl q) qs

  Step-Blocked :
      {rl rl' : State fifo chash} (i r : ℕ)
      → Step fifo chash rl rl'
      → IsSound fifo chash rl
      → (null_bucket == i) ≡ false
      → Blocked fifo chash rl i r
      → Blocked fifo chash rl' i r
  unfolding request_begin start_pending wake dispatch_responses request_cancel
  Step-Blocked {rl} i r (begins attr key) s z k = record {
    busy_is = ground (arith, k.busy_is);
    queued = ground (arith, k.queued);
  }
  Step-Blocked {rl} i r (starts now e) s z k =
      let rl₁ = record rl { incoming = fifo.empty } in
      let queue = fifo.to_list rl.incoming in
      request_selector-Blocked fifo chash (assign_all fifo chash rl₁ queue) i r now
        (assign_all-IsSound fifo chash rl₁ queue
          (emptied-IsSound fifo chash fifo.empty rl.finished rl.recycling s))
        (assign_all-Blocked fifo chash rl₁ i r queue
          (record { busy_is = k.busy_is; queued = k.queued }))
        e
  Step-Blocked {rl} i r (done q now d b n e) s z k =
      elim (Bool-cases ((rl.requests q).bucket == i)) [
        | inl y ↦
            absurd
              (ground (arith, y, b, n, k.busy_is, k.queued, (==_iff (rl.requests q).bucket i).0 y))
        | inr m ↦ transfer_done-Blocked rl i r q now d s z m n k e
      ]
  Step-Blocked {rl} i r (wakes j h) s z k = elim (Bool-cases (j == i)) [
    | inl y ↦ absurd (ground (arith, y, h, k.busy_is, (==_iff j i).0 y))
    | inr m ↦ record {
      busy_is = ground (arith, m, k.busy_is);
      queued = ground (arith, m, k.queued);
    }
  ]
  Step-Blocked {rl} i r dispatches s z k =
      let e = cancel_all-buckets (record rl { finished = fifo.empty }) (fifo.to_list rl.finished) in
      record { busy_is = ground (arith, k.busy_is, e); queued = ground (arith, k.queued, e) }
  Step-Blocked {rl} i r (returns q) s z k = record { busy_is = k.busy_is; queued = k.queued }

  Reach-Blocked :
      {rl rl' : State fifo chash} (i r : ℕ)
      → Reach fifo chash rl rl'
      → IsSound fifo chash rl
      → (null_bucket == i) ≡ false
      → Blocked fifo chash rl i r
      → IsSound fifo chash rl' × Blocked fifo chash rl' i r
  Reach-Blocked i r here s z k = (s, k)
  Reach-Blocked i r (next h st) s z k =
      let (s', k') = Reach-Blocked i r h s z k in
      (Step-IsSound fifo chash st s', Step-Blocked i r st s' z k')

  -- A request of a known bucket whose response is an error of the server, with an attempt left:
  -- whatever happens later, its bucket stays busy with it while it waits in the bucket's own queue.
  pub server_error-Reach :
      {rl rl₁ rl₂ : State fifo chash} (r now code : ℕ) (headers : Headers)
      → IsSound fifo chash rl
      → ((rl.requests r).bucket == null_bucket) ≡ false
      → ltb (rl.requests r).retry_attempt rl.retry_limit ≡ true
      → (rl.buckets (rl.requests r).bucket).busy_req ≡ request r
      → member r (fifo.to_list (rl.buckets (rl.requests r).bucket).next) ≡ false
      → 500 ≤ code
      → transfer_done fifo chash rl r now (response (http_error code) headers) ≡ ok rl₁
      → Reach fifo chash rl₁ rl₂
      → IsBlocked fifo chash (rl₂.buckets (rl.requests r).bucket) r
  server_error-Reach {rl} {rl₁} r now code headers s z a b n c e h =
      let i = (rl.requests r).bucket in
      let (rl', e', t, m, o) =
        transfer_done-server_error fifo chash rl r now code headers z a b c in
      let same_state : rl' ≡ rl₁ = ground (arith, e, e') in
      let k : Blocked fifo chash rl' i r = record {
        busy_is = t.busy_is;
        queued = ground (arith, t.queued);
      } in
      (Reach-Blocked i r h (transfer_done-IsSound fifo chash rl r now _ s n e) (ground (arith, z))
        (subst (λ rl. Blocked fifo chash rl i r) same_state k)).1
