-- ===== src/Events/Dispatch/Released.antt =====
-- winecord-gateway_dispatch.c: what becomes of the data of an event.
use wineberry_discord.Prelude.{
  ℕ, ◌+◌, ◌≤◌, ◌≡◌, ◌==◌, ◌||◌, true, List, Option, none, some, arith, refl,
}
use wineberry_discord.Chash.{Chash, is_some}
use wineberry_discord.Refcount.{RefValue, Refcounter, int_max, refvalue_find, decr}
use wineberry_discord.Refcount.Visits.{
  Visited, value_of, Keeps, IsHeld, IsReleased, add-IsHeld, decr-IsReleased,
}
use wineberry_discord.Events.Dispatch.{EventData, CacheHandler}
use wineberry_discord.Events.Dispatch.Deliver.{
  Delivery, deliveries, Receivers, call_cached, call_user, hold_data, deliver, dispatch_data,
}

module _ (refs : Chash ℕ RefValue ◌==◌) (cleanup : EventData → ℕ) where
  abbrev pub data_at : ℕ → EventData → Visited
  data_at d struct = record { address = d; cleanup = cleanup struct; should_free = true }

  hold_data-IsHeld :
      (rc : Refcounter refs) (d : ℕ) (struct : EventData)
      → refvalue_find refs rc d ≡ none
      → IsHeld refs rc (data_at d struct) (hold_data refs cleanup rc d struct)
  unfolding hold_data
  hold_data-IsHeld rc d struct e =
      let (code, held) = add-IsHeld refs rc (data_at d struct) e in rw code held

  -- How a dispatch of data may come out, by the visits and claims that are kept: no null pointer is
  -- called, and the data is held and released.
  abbrev pub IsFinished :
      Refcounter refs
      → Refcounter refs
      → Refcounter refs
      → Visited
      → ℕ
      → ℕ
      → Option (Refcounter refs × List Delivery)
      → Type 0
  IsFinished rc held before x visits claims none = ⊥
  IsFinished rc held before x visits claims (some (r, ds)) =
      IsHeld refs rc x held × IsReleased refs before x visits claims r

  dispatch_data-by :
      (receivers : Receivers refs cleanup) (rc : Refcounter refs) (d : ℕ) (struct : EventData)
      (cached : Option CacheHandler) (user : Option ℕ)
      → is_some cached || is_some user ≡ true
      → dispatch_data refs cleanup receivers rc d (some struct) cached user
        ≡ some (
          (decr refs (deliver refs cleanup receivers rc d struct cached user) d).0,
          deliveries cached user d struct,
        )
  unfolding dispatch_data
  dispatch_data-by receivers rc d struct none none h = cc
  dispatch_data-by receivers rc d struct none (some f) h = refl
  dispatch_data-by receivers rc d struct (some handler) user h = refl

  -- The dispatch of the data of an event that has a callback, at an address that is not in the
  -- reference counter, where each callback keeps some visits of it, of which no more are claims, and
  -- all visits fit INT_MAX: the data is added with one visit, and nothing else changes, before the
  -- callbacks run; afterwards it is cleaned up and freed, once and after the callbacks, if they keep no
  -- visit, and otherwise it stays with the visits and claims that they keep. The other entries are as
  -- the callbacks leave them.
  pub dispatch_data-IsFinished :
      (receivers : Receivers refs cleanup) (rc : Refcounter refs) (d : ℕ) (struct : EventData)
      (cached : Option CacheHandler) (user : Option ℕ) (a b a' b' : ℕ)
      → is_some cached || is_some user ≡ true
      → refvalue_find refs rc d ≡ none
      → Keeps refs (call_cached refs cleanup receivers cached d) d a b
      → Keeps refs (call_user refs cleanup receivers user d) d a' b'
      → b ≤ a
      → b' ≤ a'
      → 1 + (a + a') ≤ int_max
      → IsFinished rc
          (hold_data refs cleanup rc d struct)
          (deliver refs cleanup receivers rc d struct cached user)
          (data_at d struct)
          (a + a')
          (b + b')
          (dispatch_data refs cleanup receivers rc d (some struct) cached user)
  dispatch_data-IsFinished receivers rc d struct cached user a b a' b' h e keeps keeps' le le'
        fits =
      let x = data_at d struct in
      let held = hold_data-IsHeld rc d struct e in
      let first = keeps _ (value_of x 1 0) held.found (omega (arith, fits)) in
      let second = keeps' _ (value_of x (1 + a) (0 + b)) first (omega (arith, fits)) in
      let released =
        decr-IsReleased refs (deliver refs cleanup receivers rc d struct cached user) x (a + a')
          (b + b') (ground (arith, second)) (omega (arith, le, le')) in
      rw (dispatch_data-by receivers rc d struct cached user h) (held, released)
