-- ===== src/Rest/Sound/Blocked.antt =====
-- What becomes of a bucket that is busy with a request which waits in the bucket's own queue, as a
-- retry leaves it.
use wineberry_discord.Prelude.{
  ℕ, ◌≡◌, ◌<◌, ◌==◌, Bool, true, false, List, [], ◌∷◌, ◌++◌, Option, arith, Bool-cases, inl, inr,
  if◌then◌else◌, ◌∙◌, sym, subst, ==_iff,
}
use wineberry_discord.Chash.{Chash}
use wineberry_discord.Fifo.{Fifo}
use wineberry_discord.Rest.{Text, same, ok, request, Bucket, null_bucket}
use wineberry_discord.Rest.Queueing.{State, bucket_insert, request_selector}
use wineberry_discord.Rest.Match.{
  Headers, bucket_find, bucket_get, bucket_init, match_or_create, get_match, filter_from,
  null_filter, populate, build,
}
use wineberry_discord.Rest.Transfer.{assign_all}
use wineberry_discord.Rest.Pass.{member, request_selector-Passes}
use wineberry_discord.Rest.Sound.{IsSound}
use wineberry_discord.Rest.Sound.Turns.{Sound-none_stuck}

member-append : (r : ℕ) (xs : List ℕ) (x : ℕ) → member r xs ≡ true → member r (xs ++ x ∷ []) ≡ true
member-append r [] x h = cc
member-append r (y ∷ xs) x h = ground (arith, h, member-append r xs x)

module _ (fifo : Fifo) (chash : Chash Text ℕ same) where
  pub record IsBlocked (b : Bucket fifo) (r : ℕ) : Type 0 where
    pub busy_is : b.busy_req ≡ request r
    pub queued : member r (fifo.to_list b.next) ≡ true

  abbrev pub Blocked : State fifo chash → ℕ → ℕ → Type 0
  Blocked rl i r = IsBlocked (rl.buckets i) r

  pub bucket_insert-Blocked :
      (rl : State fifo chash) (i r j q : ℕ) (high_priority : Bool)
      → Blocked rl i r
      → Blocked (bucket_insert fifo chash rl j q high_priority) i r
  unfolding bucket_insert
  bucket_insert-Blocked rl i r j q high_priority k = elim (Bool-cases (j == i)) [
    | inl e ↦
        let e' = (==_iff j i).0 e in
        record {
          busy_is = ground (arith, k.busy_is, e');
          queued = ground (
            arith,
            k.queued,
            e',
            fifo.to_list-insert_head q (rl.buckets j).next,
            fifo.to_list-insert_tail q (rl.buckets j).next,
            member-append r (fifo.to_list (rl.buckets j).next) q,
          );
        }
    | inr n ↦ record {
      busy_is = ground (arith, n, k.busy_is);
      queued = ground (arith, n, k.queued);
    }
  ]

  pub assign_all-Blocked :
      (rl : State fifo chash) (i r : ℕ) (queue : List ℕ)
      → Blocked rl i r
      → Blocked (assign_all fifo chash rl queue) i r
  unfolding assign_all
  assign_all-Blocked rl i r [] k = k
  assign_all-Blocked rl i r (q ∷ qs) k =
      let p = rl.requests q in
      let j = bucket_get fifo chash rl p.key in
      assign_all-Blocked (bucket_insert fifo chash rl j q p.high_priority) i r qs
        (bucket_insert-Blocked rl i r j q p.high_priority k)

  pub request_selector-Blocked :
      (rl : State fifo chash) (i r now : ℕ) {rl' : State fifo chash}
      → IsSound fifo chash rl
      → Blocked rl i r
      → request_selector fifo chash rl now ≡ ok rl'
      → Blocked rl' i r
  request_selector-Blocked rl i r now {rl'} s k e =
      let is = fifo.to_list rl.pending in
      let n = Sound-none_stuck fifo chash rl is s (λ j m. sym (s.pending_iff j) ∙ m) in
      let (rl'', e', o, p, moved, others) = request_selector-Passes fifo chash rl now s.once n in
      let kept : Blocked rl'' i r = elim (Bool-cases (member i is)) [
        | inl y ↦ record {
          busy_is = ground (arith, (moved i y).busy_is, k.busy_is);
          queued = ground (arith, (moved i y).queue_is, k.busy_is, k.queued);
        }
        | inr m ↦ subst (λ b. IsBlocked b r) (sym (others i m)) k
      ] in
      let same_state : rl'' ≡ rl' = ground (arith, e, e') in
      subst (λ rl. Blocked rl i r) same_state kept

  filter_from-Blocked :
      (rl : State fifo chash) (i r target : ℕ) (key : Text) (queue : List ℕ)
      → Blocked rl i r
      → Blocked (filter_from fifo chash rl target key queue) i r
  unfolding filter_from
  filter_from-Blocked rl i r target key [] k = k
  filter_from-Blocked rl i r target key (q ∷ qs) k =
      let target' = if same (rl.requests q).key key then target else null_bucket in
      filter_from-Blocked (bucket_insert fifo chash rl target' q false) i r target' key qs
        (bucket_insert-Blocked rl i r target' q false k)

  null_filter-Blocked :
      (rl : State fifo chash) (i r target : ℕ) (key : Text)
      → (null_bucket == i) ≡ false
      → Blocked rl i r
      → Blocked (null_filter fifo chash rl target key) i r
  unfolding null_filter
  null_filter-Blocked rl i r target key n k =
      filter_from-Blocked _ i r target key (fifo.to_list (rl.buckets null_bucket).next)
        (record { busy_is = ground (arith, n, k.busy_is); queued = ground (arith, n, k.queued) })

  populate-Blocked :
      (rl : State fifo chash) (i r j now : ℕ) (headers : Headers)
      → Blocked rl i r
      → Blocked (populate fifo chash rl j now headers) i r
  unfolding populate
  populate-Blocked rl i r j now headers k = record {
    busy_is = ground (arith, k.busy_is);
    queued = ground (arith, k.queued);
  }

  match_or_create-Blocked :
      (rl : State fifo chash) (i r : ℕ) (key : Text) (headers : Headers) (found : Option ℕ)
      → i < rl.created
      → Blocked rl i r
      → Blocked (match_or_create fifo chash rl key headers found).0 i r
  unfolding bucket_init
  match_or_create-Blocked rl i r key headers found h k = record {
    busy_is = ground (arith, k.busy_is);
    queued = ground (arith, k.queued);
  }

  pub build-Blocked :
      (rl : State fifo chash) (i r j : ℕ) (key : Text) (now : ℕ) (headers : Headers)
      → (null_bucket == i) ≡ false
      → i < rl.created
      → Blocked rl i r
      → Blocked (build fifo chash rl j key now headers) i r
  unfolding build get_match
  build-Blocked rl i r j key now headers n h k = elim (Bool-cases (j == null_bucket)) [
    | inl y ↦
        let found = bucket_find fifo chash rl key in
        rw y (
          populate-Blocked _ i r _ now headers (
            null_filter-Blocked _ i r _ key n
              (match_or_create-Blocked rl i r key headers found h k)))
    | inr m ↦ rw m (populate-Blocked rl i r j now headers k)
  ]
