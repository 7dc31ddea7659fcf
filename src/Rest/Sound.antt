-- ===== src/Rest/Sound.antt =====
-- winecord-rest_ratelimit.c and winecord-rest_request.c: what holds between the queues whenever the
-- requestor is at rest, and that its operations keep it.
mod Insert
mod Buckets
mod Finish
mod Turns
pub mod History
pub mod Blocked
pub mod Starved
use wineberry_discord.Prelude.{
  ℕ, suc, ◌≡◌, ◌≤◌, ◌<◌, ◌&&◌, ◌||◌, not, ◌==◌, if◌then◌else◌, Bool, true, false, List, [], ◌∷◌,
  Option, some,
}
use wineberry_discord.Chash.{Chash}
use wineberry_discord.Fifo.{Fifo}
use wineberry_discord.Rest.{Text, same, Busy, idle, timeout, request, Bucket}
use wineberry_discord.Rest.Queueing.{State}
use wineberry_discord.Rest.Pass.{member, distinct}

abbrev pub nonempty {ℓ} : {A : Type ℓ} → List A → Bool
nonempty [] = false
nonempty (x ∷ xs) = true

-- A bucket that has no transfer under way.
abbrev pub is_waiting : Busy → Bool
is_waiting idle = true
is_waiting timeout = true
is_waiting (request r) = false

-- A bucket with requests is pending, and a pending bucket with no transfer under way has requests.
abbrev pub is_loose : Bool → List ℕ → Bool
is_loose linked queue = linked || not (nonempty queue)

abbrev pub is_ready : Bool → Busy → List ℕ → Bool
is_ready linked busy queue = not (linked && is_waiting busy) || nonempty queue

-- The invariant but for no bucket, but for one, and but for one bucket less.
abbrev pub none_but : ℕ → Bool
none_but i = false

abbrev pub only : ℕ → ℕ → Bool
only i j = i == j

abbrev pub but : ℕ → (ℕ → Bool) → ℕ → Bool
but i except j = if i == j then false else except j

module _ (fifo : Fifo) (chash : Chash Text ℕ same) where
  -- `except` tells the buckets that an operation in its middle has not yet put right.
  pub record IsSoundBut (except : ℕ → Bool) (rl : State fifo chash) : Type 0 where
    pub pending_iff : (i : ℕ) → member i (fifo.to_list rl.pending) ≡ (rl.buckets i).linked
    pub once : distinct (fifo.to_list rl.pending) ≡ true
    pub loose : (i : ℕ) → is_loose (rl.buckets i).linked (fifo.to_list (rl.buckets i).next) ≡ true
    pub ready :
        (i : ℕ)
        → except i ≡ false
        → is_ready (rl.buckets i).linked (rl.buckets i).busy_req (fifo.to_list (rl.buckets i).next)
          ≡ true
    pub unused :
        (i : ℕ)
        → rl.created ≤ i
        → ((rl.buckets i).linked ≡ false) × ((rl.buckets i).busy_req ≡ idle)
    pub known : (key : Text) (i : ℕ) → chash.lookup rl.routes key ≡ some i → i < rl.created
    pub owned : (r : ℕ) → (rl.requests r).bucket < rl.created
    pub singletons : 2 ≤ rl.created

  pub weaken :
      {rl : State fifo chash} {except : ℕ → Bool} (except' : ℕ → Bool)
      → ((i : ℕ) → except' i ≡ false → except i ≡ false)
      → IsSoundBut except rl
      → IsSoundBut except' rl
  weaken except' h s = record {
    pending_iff = s.pending_iff;
    once = s.once;
    loose = s.loose;
    ready = λ i e. s.ready i (h i e);
    unused = s.unused;
    known = s.known;
    owned = s.owned;
    singletons = s.singletons;
  }

  abbrev pub IsSound : State fifo chash → Type 0
  IsSound rl = IsSoundBut none_but rl
