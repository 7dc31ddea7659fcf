-- ===== src/Rest/Sound/History.antt =====
-- The requestor and its rate limiter over a history: what may happen to them, in any order, and what
-- holds throughout. Each step holds the locks that it needs, and the buckets are the REST thread's.
use wineberry_discord.Prelude.{
  ℕ, ◌≡◌, ◌<◌, false, List, [], ◌∷◌, arith, Option-cases, inl, inr, refl, subst,
}
use wineberry_discord.Chash.{Chash}
use wineberry_discord.Fifo.{Fifo}
use wineberry_discord.Rest.{Text, same, ok, timeout, request, Request}
use wineberry_discord.Rest.Queueing.{State, bucket_insert, wake, set_request}
use wineberry_discord.Rest.Match.{bucket_get}
use wineberry_discord.Rest.Transfer.{
  Done, transfer_done, assign_all, start_pending, request_cancel, cancel_all, dispatch_responses,
}
use wineberry_discord.Rest.Begin.{Attributes, null_key, miss_key, init, request_begin}
use wineberry_discord.Rest.Pass.{member}
use wineberry_discord.Rest.Sound.{IsSound, none_but, weaken}
use wineberry_discord.Rest.Sound.Insert.{bucket_insert-IsSoundBut}
use wineberry_discord.Rest.Sound.Finish.{transfer_done-IsSound}
use wineberry_discord.Rest.Sound.Turns.{request_selector-IsSound}

module _ (fifo : Fifo) (chash : Chash Text ℕ same) where
  -- A call of `winecord_request_begin`, a round of the REST thread, a transfer that curl reports (it
  -- is under way, so its bucket is busy with it and no queue has it), a timer that was set for a
  -- bucket, the dispatch of the responses, and the end of a waiting caller.
  pub data Step (rl : State fifo chash) : State fifo chash → Type 0 where
    begins : (attr : Attributes) (key : Text) → Step rl (request_begin fifo chash rl attr key).0
    starts :
        (now : ℕ) {rl' : State fifo chash} → start_pending fifo chash rl now ≡ ok rl' → Step rl rl'
    done :
        (r now : ℕ) (d : Done) {rl' : State fifo chash}
        → (rl.buckets (rl.requests r).bucket).busy_req ≡ request r
        → member r (fifo.to_list (rl.buckets (rl.requests r).bucket).next) ≡ false
        → transfer_done fifo chash rl r now d ≡ ok rl'
        → Step rl rl'
    wakes : (i : ℕ) → (rl.buckets i).busy_req ≡ timeout → Step rl (wake fifo chash rl i)
    dispatches : Step rl (dispatch_responses fifo chash rl)
    returns : (r : ℕ) → Step rl (request_cancel fifo chash rl r)

  pub data Reach (rl : State fifo chash) : State fifo chash → Type 0 where
    here : Reach rl rl
    next : {rl' rl'' : State fifo chash} → Reach rl rl' → Step rl' rl'' → Reach rl rl''

  init-IsSound : IsSound fifo chash (init fifo chash)
  unfolding init
  init-IsSound = record {
    pending_iff = λ i. ground (arith, fifo.to_list-empty);
    once = ground (arith, fifo.to_list-empty);
    loose = λ i. ground (arith, fifo.to_list-empty);
    ready = λ i e. ground (arith, fifo.to_list-empty);
    unused = λ i h. ground arith;
    known = λ key i e. ground (
      arith,
      e,
      chash.lookup-assign (chash.assign chash.init null_key 0).0 miss_key 1 key,
      chash.lookup-assign chash.init null_key 0 key,
      chash.lookup-init key,
    );
    owned = λ r. omega arith;
    singletons = omega arith;
  }

  set_request-IsSound :
      {rl : State fifo chash} (r : ℕ) (q : Request)
      → IsSound fifo chash rl
      → q.bucket < rl.created
      → IsSound fifo chash (set_request fifo chash rl r q)
  set_request-IsSound r q s h = record {
    pending_iff = s.pending_iff;
    once = s.once;
    loose = s.loose;
    ready = s.ready;
    unused = s.unused;
    known = s.known;
    owned = λ p. ground (arith, h, s.owned p);
    singletons = s.singletons;
  }

  request_begin-IsSound :
      (rl : State fifo chash) (attr : Attributes) (key : Text)
      → IsSound fifo chash rl
      → IsSound fifo chash (request_begin fifo chash rl attr key).0
  unfolding request_begin
  request_begin-IsSound rl attr key s = record {
    pending_iff = λ i. ground (arith, s.pending_iff i);
    once = ground (arith, s.once);
    loose = λ i. ground (arith, s.loose i);
    ready = λ i e. ground (arith, s.ready i e);
    unused = λ i h. ground (arith, s.unused i);
    known = λ k i e. ground (arith, s.known k i);
    owned = λ p. ground (arith, s.owned p, s.singletons);
    singletons = ground (arith, s.singletons);
  }

  bucket_get-lt-created :
      (rl : State fifo chash) (key : Text)
      → IsSound fifo chash rl
      → bucket_get fifo chash rl key < rl.created
  unfolding bucket_get
  bucket_get-lt-created rl key s = elim (Option-cases (chash.lookup rl.routes key)) [
    | inl n ↦ ground (arith, n, s.singletons)
    | inr (i, e) ↦ ground (arith, e, s.known key i e, s.singletons)
  ]

  pub assign_all-IsSound :
      (rl : State fifo chash) (queue : List ℕ)
      → IsSound fifo chash rl
      → IsSound fifo chash (assign_all fifo chash rl queue)
  unfolding assign_all
  assign_all-IsSound rl [] s = s
  assign_all-IsSound rl (r ∷ rs) s =
      let q = rl.requests r in
      let i = bucket_get fifo chash rl q.key in
      assign_all-IsSound (bucket_insert fifo chash rl i r q.high_priority) rs (
        weaken fifo chash none_but (λ j e. ground arith)
          (bucket_insert-IsSoundBut fifo chash i r q.high_priority s
            (bucket_get-lt-created rl q.key s)))

  -- What the invariant says is of the queues alone.
  pub emptied-IsSound :
      {rl : State fifo chash} (incoming finished recycling : fifo.Carrier)
      → IsSound fifo chash rl
      → IsSound fifo chash
          (record rl { incoming = incoming; finished = finished; recycling = recycling })
  emptied-IsSound incoming finished recycling s = record {
    pending_iff = s.pending_iff;
    once = s.once;
    loose = s.loose;
    ready = s.ready;
    unused = s.unused;
    known = s.known;
    owned = s.owned;
    singletons = s.singletons;
  }

  -- Where the invariant holds, a round of the REST thread goes through.
  pub start_pending-IsSound :
      (rl : State fifo chash) (now : ℕ)
      → IsSound fifo chash rl
      → (rl' : State fifo chash) × (start_pending fifo chash rl now ≡ ok rl')
        × IsSound fifo chash rl'
  unfolding start_pending
  start_pending-IsSound rl now s =
      request_selector-IsSound fifo chash
        (assign_all fifo chash (record rl { incoming = fifo.empty }) (fifo.to_list rl.incoming)) now
        (assign_all-IsSound (record rl { incoming = fifo.empty }) (fifo.to_list rl.incoming)
          (emptied-IsSound fifo.empty rl.finished rl.recycling s))

  wake-IsSound :
      (rl : State fifo chash) (i : ℕ)
      → IsSound fifo chash rl
      → (rl.buckets i).busy_req ≡ timeout
      → IsSound fifo chash (wake fifo chash rl i)
  unfolding wake
  wake-IsSound rl i s h = record {
    pending_iff = λ j. ground (arith, s.pending_iff j);
    once = s.once;
    loose = λ j. ground (arith, s.loose j);
    ready = λ j e. ground (arith, s.ready i refl, s.ready j e);
    unused = λ j u. ground (arith, s.unused j);
    known = s.known;
    owned = s.owned;
    singletons = s.singletons;
  }

  request_cancel-IsSound :
      (rl : State fifo chash) (r : ℕ)
      → IsSound fifo chash rl
      → IsSound fifo chash (request_cancel fifo chash rl r)
  unfolding request_cancel
  request_cancel-IsSound rl r s =
      set_request-IsSound r _
        (emptied-IsSound rl.incoming rl.finished (fifo.insert_tail r rl.recycling) s) (s.owned r)

  cancel_all-IsSound :
      (rl : State fifo chash) (queue : List ℕ)
      → IsSound fifo chash rl
      → IsSound fifo chash (cancel_all fifo chash rl queue)
  unfolding cancel_all
  cancel_all-IsSound rl [] s = s
  cancel_all-IsSound rl (r ∷ rs) s =
      cancel_all-IsSound (request_cancel fifo chash rl r) rs (request_cancel-IsSound rl r s)

  pub Step-IsSound :
      {rl rl' : State fifo chash} → Step rl rl' → IsSound fifo chash rl → IsSound fifo chash rl'
  unfolding dispatch_responses
  Step-IsSound {rl} (begins attr key) s = request_begin-IsSound rl attr key s
  Step-IsSound {rl} (starts now e) s =
      let (rl'', e', s') = start_pending-IsSound rl now s in
      subst (IsSound fifo chash) (ground (arith, e, e')) s'
  Step-IsSound {rl} (done r now d b n e) s = transfer_done-IsSound fifo chash rl r now d s n e
  Step-IsSound {rl} (wakes i h) s = wake-IsSound rl i s h
  Step-IsSound {rl} dispatches s =
      cancel_all-IsSound (record rl { finished = fifo.empty }) (fifo.to_list rl.finished)
        (emptied-IsSound rl.incoming fifo.empty rl.recycling s)
  Step-IsSound {rl} (returns r) s = request_cancel-IsSound rl r s

  -- Throughout every history of a new requestor its queues are sound.
  pub Reach-IsSound : {rl : State fifo chash} → Reach (init fifo chash) rl → IsSound fifo chash rl
  Reach-IsSound here = init-IsSound
  Reach-IsSound (next h st) = Step-IsSound st (Reach-IsSound h)

  -- In every history of a new requestor the next round of the REST thread goes through: the program
  -- does not abort, and no bucket that has its turn is without a request.
  pub Reach-start_pending :
      {rl : State fifo chash} (now : ℕ)
      → Reach (init fifo chash) rl
      → (rl' : State fifo chash) × (start_pending fifo chash rl now ≡ ok rl')
        × IsSound fifo chash rl'
  Reach-start_pending {rl} now h = start_pending-IsSound rl now (Reach-IsSound h)
