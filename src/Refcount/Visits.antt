-- ===== src/Refcount/Visits.antt =====
-- winecord-refcount.c: data that is added to the reference counter for as long as callbacks run with it.
use wineberry_discord.Prelude.{
  ℕ, ◌+◌, ◌≤◌, ◌≡◌, ◌==◌, ◌++◌, Bool, false, List, [], ◌∷◌, Option, none, some, arith,
  if◌then◌else◌, append-nil,
}
use wineberry_discord.Chash.{Chash}
use wineberry_discord.Refcount.{
  RefValue, Refcounter, resource_unavailable, Effect, internal_cleanup, free, int_max,
  refvalue_find, refvalue_cleanup, incr, decr, add_internal, step, incrs, decrs, adds_internal,
}
use wineberry_discord.Refcount.Entry.{fresh, step-ActsAs}

-- The data: its address, its cleanup, and whether it is freed.
pub record Visited : Type 0 where
  pub address : ℕ
  pub cleanup : ℕ
  pub should_free : Bool

-- The value of the data, with some visits and claims.
abbrev pub value_of : Visited → ℕ → ℕ → RefValue
value_of x visits claims = record (fresh x.address (some x.cleanup) x.should_free false) {
  visits = visits;
  claims = claims;
}

-- What is left of it, with the visits and claims that the callbacks kept, and what is done to it.
abbrev pub left_of : Visited → ℕ → ℕ → Option RefValue
left_of x visits claims = if visits == 0 then none else some (value_of x visits claims)

abbrev pub done_to : Visited → ℕ → List Effect
done_to x visits =
    if visits == 0
    then internal_cleanup x.cleanup x.address ∷ (if x.should_free then free x.address ∷ [] else [])
    else []

module _ (refs : Chash ℕ RefValue ◌==◌) where
  -- A callback keeps `a` more visits of the value at `d`, `b` of them claims of the user.
  abbrev pub Keeps : (Refcounter refs → Refcounter refs) → ℕ → ℕ → ℕ → Type 0
  Keeps effect d a b =
      (rc : Refcounter refs) (v : RefValue)
      → refvalue_find refs rc d ≡ some v
      → v.visits + a ≤ int_max
      → refvalue_find refs (effect rc) d
        ≡ some (record v { visits = v.visits + a; claims = v.claims + b })

  -- The data begins to be referred to: `held` is after `rc`.
  pub record IsHeld (rc : Refcounter refs) (x : Visited) (held : Refcounter refs) : Type 0 where
    pub found : refvalue_find refs held x.address ≡ some (value_of x 1 0)
    pub quiet : held.effects ≡ rc.effects
    pub others :
        (j : ℕ) → (x.address == j) ≡ false → refvalue_find refs held j ≡ refvalue_find refs rc j

  -- It ends to be referred to: `r` is after `before`, with the visits and claims that are kept.
  pub record IsReleased (before : Refcounter refs) (x : Visited) (visits claims : ℕ)
      (r : Refcounter refs) : Type 0 where
    pub found : refvalue_find refs before x.address ≡ some (value_of x (1 + visits) claims)
    pub left : refvalue_find refs r x.address ≡ left_of x visits claims
    pub done : r.effects ≡ before.effects ++ done_to x visits
    pub others :
        (j : ℕ) → (x.address == j) ≡ false → refvalue_find refs r j ≡ refvalue_find refs before j

  -- An address that is not in the table cannot be visited, and is added.
  pub add-IsHeld :
      (rc : Refcounter refs) (x : Visited)
      → refvalue_find refs rc x.address ≡ none
      → ((incr refs rc x.address).1 ≡ resource_unavailable)
        × IsHeld rc x
            (add_internal refs (incr refs rc x.address).0 x.address (some x.cleanup) x.should_free)
  unfolding step
  add-IsHeld rc x e =
      let d = x.address in
      let (finds, code, effects) = step-ActsAs refs rc (incrs d) in
      let (finds', code', effects') =
        step-ActsAs refs (incr refs rc d).0 (adds_internal d (some x.cleanup) x.should_free) in
      (
        ground (arith, e, code),
        record {
          found = ground (arith, finds' d);
          quiet = ground (arith, e, effects, effects', finds d, append-nil rc.effects);
          others = λ j other. ground (arith, other, finds j, finds' j);
        },
      )

  pub decr-IsReleased :
      (rc : Refcounter refs) (x : Visited) (visits claims : ℕ)
      → refvalue_find refs rc x.address ≡ some (value_of x (1 + visits) claims)
      → claims ≤ visits
      → IsReleased rc x visits claims (decr refs rc x.address).0
  unfolding step refvalue_cleanup
  decr-IsReleased rc x visits claims e le =
      let (finds, code, effects) = step-ActsAs refs rc (decrs x.address) in
      record {
        found = e;
        left = ground (arith, e, le, finds x.address);
        done = ground (arith, e, le, effects);
        others = λ j other. ground (arith, other, finds j);
      }
