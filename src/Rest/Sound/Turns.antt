-- ===== src/Rest/Sound/Turns.antt =====
-- The invariant of the queues through a pass of `winecord_bucket_request_selector`, which cannot
-- fail where the invariant holds.
use wineberry_discord.Prelude.{
  ℕ, ◌≡◌, ◌≤◌, ◌==◌, ◌&&◌, true, false, List, [], ◌∷◌, arith, Bool-cases, inl, inr, refl, ==_iff,
  ◌∙◌, sym,
}
use wineberry_discord.Chash.{Chash}
use wineberry_discord.Fifo.{Fifo}
use wineberry_discord.Rest.{Text, same, ok, Bucket}
use wineberry_discord.Rest.Queueing.{State, request_selector}
use wineberry_discord.Rest.Select.{Moved, move, stays}
use wineberry_discord.Rest.Pass.{
  member, distinct, all_stay, none_stuck, Passes, select_all-Passes, emptied-Unseen,
}
use wineberry_discord.Rest.Sound.{is_loose, is_ready, IsSound}

module _ (fifo : Fifo) (chash : Chash Text ℕ same) where
  member-all_stay :
      (rl : State fifo chash) (i : ℕ) (is : List ℕ)
      → member i (all_stay fifo chash rl is)
        ≡ (member i is && stays (move fifo chash (rl.buckets i)))
  member-all_stay rl i [] = refl
  member-all_stay rl i (j ∷ is) = elim (Bool-cases (i == j)) [
    | inl e ↦ rw ((==_iff i j).0 e) (ground (arith, member-all_stay rl j is))
    | inr n ↦ ground (arith, n, member-all_stay rl i is)
  ]

  distinct-all_stay :
      (rl : State fifo chash) (is : List ℕ)
      → distinct is ≡ true
      → distinct (all_stay fifo chash rl is) ≡ true
  distinct-all_stay rl [] d = refl
  distinct-all_stay rl (i ∷ is) d =
      ground (arith, d, distinct-all_stay rl is, member-all_stay rl i is)

  pub Sound-none_stuck :
      (rl : State fifo chash) (is : List ℕ)
      → IsSound fifo chash rl
      → ((i : ℕ) → member i is ≡ true → (rl.buckets i).linked ≡ true)
      → none_stuck fifo chash rl is ≡ true
  Sound-none_stuck rl [] s h = refl
  Sound-none_stuck rl (i ∷ is) s h = ground (
    arith,
    h i (ground arith),
    s.ready i refl,
    Sound-none_stuck rl is s (λ j m. h j (ground (arith, m))),
  )

  -- What holds of each bucket after its turn.
  Moved-loose :
      (b b' : Bucket fifo)
      → Moved fifo chash b b'
      → is_loose b.linked (fifo.to_list b.next) ≡ true
      → b.linked ≡ true
      → is_ready b.linked b.busy_req (fifo.to_list b.next) ≡ true
      → (is_loose b'.linked (fifo.to_list b'.next) ≡ true)
        × (is_ready b'.linked b'.busy_req (fifo.to_list b'.next) ≡ true)
  Moved-loose b b' m l k r = ground (arith, m.busy_is, m.queue_is, m.linked_is)

  Passes-IsSound :
      (rl rl' : State fifo chash) (now : ℕ)
      → IsSound fifo chash rl
      → Passes fifo chash (record rl { pending = fifo.empty }) rl' (fifo.to_list rl.pending) now
      → IsSound fifo chash rl'
  Passes-IsSound rl rl' now s p =
      let is = fifo.to_list rl.pending in
      let u = emptied-Unseen fifo chash rl is now in
      let pending_is : fifo.to_list rl'.pending ≡ all_stay fifo chash rl is =
        ground (arith, p.pending_is, fifo.to_list-empty, u.same_stay) in
      record {
        pending_iff = λ i. elim (Bool-cases (member i is)) [
          | inl y ↦ ground (
            arith,
            y,
            pending_is,
            member-all_stay rl i is,
            s.pending_iff i,
            (p.moved i y).linked_is,
          )
          | inr n ↦
              ground (arith, n, pending_is, member-all_stay rl i is, s.pending_iff i, p.others i n)
        ];
        once = ground (arith, pending_is, distinct-all_stay rl is s.once);
        loose = λ i. elim (Bool-cases (member i is)) [
          | inl y ↦
              (Moved-loose (rl.buckets i) (rl'.buckets i) (p.moved i y) (s.loose i)
                (sym (s.pending_iff i) ∙ y) (s.ready i refl)).0
          | inr n ↦ ground (arith, p.others i n, s.loose i)
        ];
        ready = λ i e. elim (Bool-cases (member i is)) [
          | inl y ↦
              (Moved-loose (rl.buckets i) (rl'.buckets i) (p.moved i y) (s.loose i)
                (sym (s.pending_iff i) ∙ y) (s.ready i refl)).1
          | inr n ↦ ground (arith, p.others i n, s.ready i refl)
        ];
        unused = λ i h.
            let c : rl.created ≤ i = ground (arith, p.kept.same_created, h) in
            let (l, b) = s.unused i c in
            let n : member i is ≡ false = s.pending_iff i ∙ l in
            (ground (arith, p.others i n, l), ground (arith, p.others i n, b));
        known =
            λ key i e. ground (arith, s.known key i, p.kept.same_routes, p.kept.same_created, e);
        owned = λ r. ground (arith, s.owned r, p.kept.same_requests, p.kept.same_created);
        singletons = ground (arith, s.singletons, p.kept.same_created);
      }

  pub request_selector-IsSound :
      (rl : State fifo chash) (now : ℕ)
      → IsSound fifo chash rl
      → (rl' : State fifo chash) × (request_selector fifo chash rl now ≡ ok rl')
        × IsSound fifo chash rl'
  unfolding request_selector
  request_selector-IsSound rl now s =
      let is = fifo.to_list rl.pending in
      let u = emptied-Unseen fifo chash rl is now in
      let n = Sound-none_stuck rl is s (λ i m. sym (s.pending_iff i) ∙ m) in
      let (rl', e, p) =
        select_all-Passes fifo chash (record rl { pending = fifo.empty }) is now s.once
          (u.same_stuck ∙ n) in
      (rl', e, Passes-IsSound rl rl' now s p)
