-- ===== src/Rest.antt =====
-- source/wineberry/discord/winecord-rest_ratelimit.c and winecord-rest_request.c: requests wait in
-- the buckets that Discord's rate limits put them in, at most one of each bucket on its way. Buckets
-- and requests are numbered, and the state has what each number stands for. A bucket's `linked` is
-- the negation of `QUEUE_EMPTY(&b->entry)`. Keys are texts; timestamps are 64 bits wide. What goes
-- out, transfers and timers, is appended to `out`.
pub mod Key
pub mod Queueing
pub mod Match
pub mod Transfer
pub mod Select
pub mod Pass
pub mod Again
pub mod Begin
pub mod Filter
pub mod Sound
mod Tests
use wineberry_discord.Prelude.{
  ℕ, ◌+◌, ◌-◌, ◌%◌, ◌^◌, ◌≡◌, ◌==◌, ◌&&◌, Bool, true, false, List, [], ◌∷◌, ◌++◌, if◌then◌else◌,
}
use wineberry_discord.Prelude.Int.{ℤ}
use wineberry_discord.Chash.{Chash}
use wineberry_discord.Fifo.{Fifo}

abbrev pub Text : Type 0
Text = List ℕ

-- `!strcmp(a, b)`
abbrev pub same : Text → Text → Bool
same [] [] = true
same [] (b ∷ bs) = false
same (a ∷ xs) [] = false
same (a ∷ xs) (b ∷ bs) = a == b && same xs bs

-- A bucket's `busy_req`: NULL, WINECORD_BUCKET_TIMEOUT or a request.
pub data Busy : Type 0 where
  idle timeout : Busy
  request : ℕ → Busy

pub data Out : Type 0 where
  sends : ℕ → Out
  wakes : ℕ → ℕ → Out
  signals : ℕ → Out

pub data Result (A : Type 0) : Type 0 where
  abort : Result A
  ok : A → Result A

-- The program goes on, to a value that has a property.
abbrev pub Ends : {A : Type 0} → Result A → (A → Type 0) → Type 0
Ends abort P = ⊥
Ends (ok a) P = P a

-- What goes on past an assertion.
pub not_aborted :
    {A : Type 0} (fails : Bool) (r : Result A) {a : A}
    → (if fails then abort else r) ≡ ok a
    → r ≡ ok a
not_aborted true r e = cc
not_aborted false r e = e

-- `struct winecord_request`, as far as the queues and the rate limiter read it.
pub record Request : Type 0 where
  pub key : Text
  pub bucket : ℕ
  pub retry_attempt : ℕ
  pub high_priority : Bool
  pub sync : Bool

abbrev pub update {ℓ} : {A : Type ℓ} → (ℕ → A) → ℕ → A → ℕ → A
update f i a j = if i == j then a else f j

abbrev pub add_u64 : ℕ → ℕ → ℕ
add_u64 a b = (a + b) % 2 ^ 64

module _ (fifo : Fifo) where
  -- `struct winecord_bucket`
  pub record Bucket : Type 0 where
    pub limit : ℤ
    pub remaining : ℤ
    pub reset_tstamp : ℕ
    pub busy_req : Busy
    pub next : fifo.Carrier
    pub linked : Bool

  module _ (chash : Chash Text ℕ same) where
    -- `struct winecord_ratelimiter` with the queues of `struct winecord_requestor`. The bucket 0 is
    -- `null`, the bucket 1 is `miss`, and `created` is the number of the next new bucket; `made` is
    -- that of the next new request.
    pub record Rest : Type 0 where
      pub routes : chash.Carrier
      pub buckets : ℕ → Bucket
      pub created : ℕ
      pub pending : fifo.Carrier
      pub global_wait : ℕ
      pub requests : ℕ → Request
      pub incoming : fifo.Carrier
      pub finished : fifo.Carrier
      pub recycling : fifo.Carrier
      pub made : ℕ
      pub retry_limit : ℕ
      pub out : List Out

abbrev pub null_bucket : ℕ
null_bucket = 0

abbrev pub miss_bucket : ℕ
miss_bucket = 1
