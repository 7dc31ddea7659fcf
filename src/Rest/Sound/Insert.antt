-- ===== src/Rest/Sound/Insert.antt =====
-- The invariant of the queues through a `winecord_bucket_insert`, and through changes of a bucket
-- that leave its place alone.
use wineberry_discord.Prelude.{ℕ, ◌≡◌, ◌<◌, Bool, true, List, [], ◌∷◌, ◌++◌, arith, refl}
use wineberry_discord.Chash.{Chash}
use wineberry_discord.Fifo.{Fifo}
use wineberry_discord.Rest.{Text, same}
use wineberry_discord.Rest.Queueing.{State, bucket_insert}
use wineberry_discord.Rest.Sound.{nonempty, IsSoundBut, but}

pub nonempty-append : (xs : List ℕ) (x : ℕ) → nonempty (xs ++ x ∷ []) ≡ true
nonempty-append [] x = refl
nonempty-append (y ∷ xs) x = refl

module _ (fifo : Fifo) (chash : Chash Text ℕ same) where
  -- After an insertion into a bucket, that bucket is as it should be.
  pub bucket_insert-IsSoundBut :
      {rl : State fifo chash} {except : ℕ → Bool} (i r : ℕ) (high_priority : Bool)
      → IsSoundBut fifo chash except rl
      → i < rl.created
      → IsSoundBut fifo chash (but i except) (bucket_insert fifo chash rl i r high_priority)
  unfolding bucket_insert
  bucket_insert-IsSoundBut {rl} {except} i r high_priority s h = record {
    pending_iff = λ j.
        ground (arith, s.pending_iff j, s.pending_iff i, fifo.to_list-insert_head i rl.pending);
    once = ground (arith, s.once, s.pending_iff i, fifo.to_list-insert_head i rl.pending);
    loose = λ j. ground (arith, s.loose j);
    ready = λ j e. ground (
      arith,
      e,
      s.ready j,
      fifo.to_list-insert_head r (rl.buckets i).next,
      fifo.to_list-insert_tail r (rl.buckets i).next,
      nonempty-append (fifo.to_list (rl.buckets i).next) r,
    );
    unused = λ j u. ground (arith, s.unused j);
    known = s.known;
    owned = λ q. ground (arith, s.owned q);
    singletons = s.singletons;
  }
