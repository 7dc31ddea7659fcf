-- ===== src/Commands/Release.antt =====
-- winecord-messagecommands.c: what becomes of the message that a command is called with.
use wineberry_discord.Prelude.{
  ℕ, ◌+◌, ◌≤◌, ◌≡◌, ◌==◌, ◌++◌, Bool, true, false, [], ◌∷◌, Option, none, arith, refl,
}
use wineberry_discord.Chash.{Chash}
use wineberry_discord.Rest.{Text, same}
use wineberry_discord.Refcount.{RefValue, Refcounter, internal_cleanup, int_max, refvalue_find}
use wineberry_discord.Refcount.Visits.{
  Visited, value_of, Keeps, IsHeld, IsReleased, add-IsHeld, decr-IsReleased,
}
use wineberry_discord.Commands.{
  Match, ignored, unmatched, performs, Commands, message_cleanup, hold, perform_match, try_match,
  User, try_perform,
}

abbrev pub is_performed : Match → Bool
is_performed (performs f text) = true
is_performed _ = false

-- A message at an address: its cleanup frees it.
abbrev pub message_at : ℕ → Visited
message_at p = record { address = p; cleanup = message_cleanup; should_free = false }

module _ (refs : Chash ℕ RefValue ◌==◌) where
  hold-IsHeld :
      (rc : Refcounter refs) (p : ℕ)
      → refvalue_find refs rc p ≡ none
      → IsHeld refs rc (message_at p) (hold refs rc p)
  unfolding hold
  hold-IsHeld rc p e = let (code, held) = add-IsHeld refs rc (message_at p) e in rw code held

  -- What becomes of the message at `p`, by its match and the visits and claims that are kept: nothing
  -- is made, or it is cleaned up, or it is held, its callback called, and it is released.
  abbrev pub IsDone : User refs → Refcounter refs → ℕ → ℕ → ℕ → Match → Refcounter refs → Type 0
  IsDone user rc p visits claims ignored r = r ≡ rc
  IsDone user rc p visits claims unmatched r =
      (r.refs ≡ rc.refs) × (r.effects ≡ rc.effects ++ internal_cleanup message_cleanup p ∷ [])
  IsDone user rc p visits claims (performs f text) r =
      IsHeld refs rc (message_at p) (hold refs rc p)
      × IsReleased refs (user.effect f text p (hold refs rc p)) (message_at p) visits claims r

  perform_match-IsDone :
      (user : User refs) (rc : Refcounter refs) (p visits claims : ℕ) (m : Match)
      → refvalue_find refs rc p ≡ none
      → ((f : ℕ) (text : Text) → Keeps refs (user.effect f text p) p visits claims)
      → claims ≤ visits
      → 1 + visits ≤ int_max
      → IsDone user rc p visits claims m (perform_match refs user rc p m).0
        × ((perform_match refs user rc p m).1 ≡ is_performed m)
  unfolding perform_match
  perform_match-IsDone user rc p visits claims ignored e keeps le fits = (refl, refl)
  perform_match-IsDone user rc p visits claims unmatched e keeps le fits = ((refl, refl), refl)
  perform_match-IsDone user rc p visits claims (performs f text) e keeps le fits =
      let held = hold-IsHeld rc p e in
      let found = keeps f text _ (value_of (message_at p) 1 0) held.found fits in
      (
        (
          held,
          decr-IsReleased refs (user.effect f text p (hold refs rc p)) (message_at p) visits claims
              (ground (arith, found)) le,
        ),
        refl,
      )

  -- A message that was made at an address that is not in the reference counter, where each callback
  -- keeps some visits of it, within INT_MAX, and of which no more are claims: it is performed exactly
  -- if a command or the fallback was found. Where it was ignored nothing is done; where no callback was
  -- found it is cleaned up; otherwise it is added with one visit, and nothing else changes, before the
  -- callback runs, and afterwards it is cleaned up once if the callback keeps no visit, and stays with
  -- the visits and claims that it keeps if it does; the other entries are as the callback leaves them.
  pub try_perform-IsDone :
      (chash : Chash Text ℕ same) (has_entries : chash.Carrier → Bool) (user : User refs)
      (cmds : Commands chash has_entries) (rc : Refcounter refs) (p : ℕ) (raw : Option Text)
      (content : Text) (visits claims : ℕ)
      → refvalue_find refs rc p ≡ none
      → ((f : ℕ) (text : Text) → Keeps refs (user.effect f text p) p visits claims)
      → claims ≤ visits
      → 1 + visits ≤ int_max
      → let r = try_perform chash has_entries refs user cmds rc p raw content in
        let m = try_match chash has_entries cmds raw content in
        IsDone user rc p visits claims m r.0 × (r.1 ≡ is_performed m)
  unfolding try_perform
  try_perform-IsDone chash has_entries user cmds rc p raw content visits claims e keeps le fits =
      perform_match-IsDone user rc p visits claims (try_match chash has_entries cmds raw content) e
        keeps le fits
