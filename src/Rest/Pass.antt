-- ===== src/Rest/Pass.antt =====
-- winecord-rest_ratelimit.c: a whole pass of `winecord_bucket_request_selector` over the pending
-- buckets.
use wineberry_discord.Prelude.{
  ℕ, ◌≡◌, refl, ◌==◌, ◌&&◌, Bool, true, false, not, List, [], ◌∷◌, ◌++◌, inl, inr, arith,
  if◌then◌else◌, sym, ◌∙◌, append-nil, append_assoc, subst, Bool-cases, ==_iff,
}
use wineberry_discord.Chash.{Chash}
use wineberry_discord.Fifo.{Fifo}
use wineberry_discord.Rest.{Text, same, Out, ok}
use wineberry_discord.Rest.Queueing.{State, wait_until, select_all, request_selector}
use wineberry_discord.Rest.Select.{
  Moved, move, says, Turned, Kept, after_turn, stays, is_stuck, select_bucket-after_turn,
  after_turn-Turned, Kept,
}

abbrev pub member : ℕ → List ℕ → Bool
member i [] = false
member i (j ∷ js) = if i == j then true else member i js

abbrev pub distinct : List ℕ → Bool
distinct [] = true
distinct (i ∷ is) = not (member i is) && distinct is

module _ (fifo : Fifo) (chash : Chash Text ℕ same) where
  -- What the pending buckets say in their turns, one after the other, and which of them stay.
  abbrev pub all_say : State fifo chash → List ℕ → ℕ → List Out
  all_say rl [] now = []
  all_say rl (i ∷ is) now = says fifo chash rl i now ++ all_say rl is now

  abbrev pub all_stay : State fifo chash → List ℕ → List ℕ
  all_stay rl [] = []
  all_stay rl (i ∷ is) =
      if stays (move fifo chash (rl.buckets i)) then i ∷ all_stay rl is else all_stay rl is

  abbrev pub none_stuck : State fifo chash → List ℕ → Bool
  none_stuck rl [] = true
  none_stuck rl (i ∷ is) = not (is_stuck (move fifo chash (rl.buckets i))) && none_stuck rl is

  -- The later turns of a pass see what they would have seen before it.
  pub record Unseen (rl rl' : State fifo chash) (is : List ℕ) (now : ℕ) : Type 0 where
    pub same_say : all_say rl' is now ≡ all_say rl is now
    pub same_stay : all_stay rl' is ≡ all_stay rl is
    pub same_stuck : none_stuck rl' is ≡ none_stuck rl is

  Turned-Unseen :
      (rl : State fifo chash) (i now : ℕ) {rl' : State fifo chash} (is : List ℕ)
      → Turned fifo chash rl rl' i now
      → member i is ≡ false
      → Unseen rl rl' is now
  unfolding wait_until
  Turned-Unseen rl i now [] t h = record { same_say = refl; same_stay = refl; same_stuck = refl }
  Turned-Unseen rl i now (j ∷ is) t h = ground (
    arith,
    h,
    t.others j (ground (arith, h)),
    t.kept.same_wait,
    Turned-Unseen rl i now is t (ground (arith, h)),
  )

  -- What a pass over the buckets `is` has done.
  pub record Passes (rl rl' : State fifo chash) (is : List ℕ) (now : ℕ) : Type 0 where
    pub out_is : rl'.out ≡ rl.out ++ all_say rl is now
    pub pending_is : fifo.to_list rl'.pending ≡ fifo.to_list rl.pending ++ all_stay rl is
    pub moved : (i : ℕ) → member i is ≡ true → Moved fifo chash (rl.buckets i) (rl'.buckets i)
    pub others : (i : ℕ) → member i is ≡ false → rl'.buckets i ≡ rl.buckets i
    pub kept : Kept fifo chash rl rl'

  Passes-cons :
      (rl : State fifo chash) (i now : ℕ) (is : List ℕ) {rl' rl'' : State fifo chash}
      → member i is ≡ false
      → Turned fifo chash rl rl' i now
      → Unseen rl rl' is now
      → Passes rl' rl'' is now
      → Passes rl rl'' (i ∷ is) now
  Passes-cons rl i now is {rl'} {rl''} fresh t u p = record {
    out_is = ground (
      arith,
      p.out_is,
      t.out_is,
      u.same_say,
      append_assoc rl.out (says fifo chash rl i now) (all_say rl is now),
    );
    pending_is = ground (
      arith,
      p.pending_is,
      t.pending_is,
      u.same_stay,
      append_assoc (fifo.to_list rl.pending) (i ∷ []) (all_stay rl is),
      append-nil (fifo.to_list rl.pending),
    );
    moved = λ j m. elim (Bool-cases (i == j)) [
      | inl e ↦
          subst (λ k. Moved fifo chash (rl.buckets k) (rl''.buckets k)) ((==_iff i j).0 e)
            (subst (λ b. Moved fifo chash (rl.buckets i) b) (sym (p.others i fresh)) t.bucket_is)
      | inr n ↦
          subst (λ b. Moved fifo chash b (rl''.buckets j)) (t.others j n)
            (p.moved j (ground (arith, m, n)))
    ];
    others = λ j m. p.others j (ground (arith, m)) ∙ t.others j (ground (arith, m));
    kept = ground (arith, p.kept, t.kept);
  }

  pub select_all-Passes :
      (rl : State fifo chash) (is : List ℕ) (now : ℕ)
      → distinct is ≡ true
      → none_stuck rl is ≡ true
      → (rl' : State fifo chash) × (select_all fifo chash rl is now ≡ ok rl') × Passes rl rl' is now
  unfolding select_all
  select_all-Passes rl [] now d h = (
    rl,
    refl,
    record {
      out_is = sym (append-nil rl.out);
      pending_is = sym (append-nil (fifo.to_list rl.pending));
      moved = λ i m. absurd (ground (arith, m));
      others = λ i m. refl;
      kept = record {
        same_wait = refl;
        same_routes = refl;
        same_created = refl;
        same_requests = refl;
      };
    },
  )
  select_all-Passes rl (i ∷ is) now d h =
      let n : is_stuck (move fifo chash (rl.buckets i)) ≡ false = ground (arith, h) in
      let t = after_turn-Turned fifo chash rl i now n in
      let fresh : member i is ≡ false = ground (arith, d) in
      let u = Turned-Unseen rl i now is t fresh in
      let (rl', e, p) =
        select_all-Passes (after_turn fifo chash rl i now) is now (ground (arith, d))
          (ground (arith, h, u)) in
      (
        rl',
        ground (arith, select_bucket-after_turn fifo chash rl i now n, e),
        Passes-cons rl i now is fresh t u p,
      )

  pub emptied-Unseen :
      (rl : State fifo chash) (is : List ℕ) (now : ℕ)
      → Unseen rl (record rl { pending = fifo.empty }) is now
  unfolding wait_until
  emptied-Unseen rl [] now = record { same_say = refl; same_stay = refl; same_stuck = refl }
  emptied-Unseen rl (i ∷ is) now = ground (arith, emptied-Unseen rl is now)

  pub request_selector-Passes :
      (rl : State fifo chash) (now : ℕ)
      → distinct (fifo.to_list rl.pending) ≡ true
      → none_stuck rl (fifo.to_list rl.pending) ≡ true
      → (rl' : State fifo chash) × (request_selector fifo chash rl now ≡ ok rl')
        × (rl'.out ≡ rl.out ++ all_say rl (fifo.to_list rl.pending) now)
        × (fifo.to_list rl'.pending ≡ all_stay rl (fifo.to_list rl.pending))
        × ((i : ℕ)
            → member i (fifo.to_list rl.pending) ≡ true
            → Moved fifo chash (rl.buckets i) (rl'.buckets i))
        × ((i : ℕ) → member i (fifo.to_list rl.pending) ≡ false → rl'.buckets i ≡ rl.buckets i)
  unfolding request_selector
  request_selector-Passes rl now d h =
      let u = emptied-Unseen rl (fifo.to_list rl.pending) now in
      let (rl', e, p) =
        select_all-Passes (record rl { pending = fifo.empty }) (fifo.to_list rl.pending) now d
          (u.same_stuck ∙ h) in
      (
        rl',
        e,
        ground (arith, p.out_is, u.same_say),
        ground (arith, p.pending_is, u.same_stay, fifo.to_list-empty),
        p.moved,
        p.others,
      )
