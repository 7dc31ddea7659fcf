-- ===== src/Refcount/Ledger.antt =====
-- winecord-refcount.c: how the counters of an entry follow the calls that are made on it.
use wineberry_discord.Prelude.{
  ℕ, ◌+◌, ◌≤◌, ◌<◌, ◌≡◌, refl, ◌==◌, false, Option, none, some, List, [], ◌∷◌, arith, if◌then◌else◌,
  Bool-cases, Option-cases, inl, inr, ==_iff, ◌⊎◌, sym, ◌∙◌,
}
use wineberry_discord.Chash.{Chash}
use wineberry_discord.Refcount.{
  RefValue, Refcounter, ok, resource_unavailable, Call, adds_internal, adds_client, incrs, decrs,
  claims, unclaims, int_max, refvalue_find, decr, claim, step, run,
}
use wineberry_discord.Refcount.Entry.{target, step_entry, step-ActsAs, decr_entry}
use wineberry_discord.Refcount.Bounds.{SoundEntry, AllSound, step-AllSound}
use mathlib.Core.Path.{subst}
use mathlib.Core.List.{append-nil}

-- The visits that a call takes and gives back, and the claims.
abbrev pub visits_taken : Call → ℕ
visits_taken (incrs d) = 1
visits_taken (claims d) = 1
visits_taken _ = 0

abbrev pub visits_ended : Call → ℕ
visits_ended (decrs d) = 1
visits_ended (unclaims d) = 1
visits_ended _ = 0

abbrev pub claims_taken : Call → ℕ
claims_taken (claims d) = 1
claims_taken _ = 0

abbrev pub claims_ended : Call → ℕ
claims_ended (unclaims d) = 1
claims_ended _ = 0

abbrev pub IsAdd : Call → Type 0
IsAdd (adds_internal d f s) = Unit {0}
IsAdd (adds_client d f s) = Unit {0}
IsAdd _ = ⊥

-- The sum of `f` over the calls on `d`.
abbrev pub total : (Call → ℕ) → ℕ → List Call → ℕ
total f d [] = 0
total f d (c ∷ cs) = (if target c == d then f c else 0) + total f d cs

-- The entry after a call that returned ok: it is gone, or its counters moved by what was taken and
-- given back.
record Balanced (c : Call) (v w : RefValue) : Type 0 where
  visits_balance : w.visits + visits_ended c ≡ v.visits + visits_taken c
  claims_balance : w.claims + claims_ended c ≡ v.claims + claims_taken c

step_entry-Balanced :
    (c : Call) (v w : RefValue)
    → ¬ IsAdd c
    → 1 ≤ v.visits
    → (step_entry c (some v)).1 ≡ ok
    → (step_entry c (some v)).0 ≡ some w
    → Balanced c v w
step_entry-Balanced (adds_internal d f s) v w n p o e = absurd (n tt)
step_entry-Balanced (adds_client d f s) v w n p o e = absurd (n tt)
step_entry-Balanced (incrs d) v w n p o e = ground arith
step_entry-Balanced (decrs d) v w n p o e = ground arith
step_entry-Balanced (claims d) v w n p o e = ground arith
step_entry-Balanced (unclaims d) v w n p o e = ground arith

step_entry-gone : (c : Call) → ¬ IsAdd c → (step_entry c none).1 ≡ ok → ⊥
step_entry-gone (adds_internal d f s) n o = n tt
step_entry-gone (adds_client d f s) n o = n tt
step_entry-gone (incrs d) n o = cc
step_entry-gone (decrs d) n o = cc
step_entry-gone (claims d) n o = cc
step_entry-gone (unclaims d) n o = cc

abbrev left_by : Option RefValue → RefValue → RefValue
left_by none v = v
left_by (some w) v = w

decr_entry-claimed :
    (v : RefValue)
    → 0 < v.claims
    → (w : RefValue) × ((decr_entry (some v)).0 ≡ some w)
      × (w.claims ≡ v.claims)
      × ((decr_entry (some v)).2 ≡ [])
decr_entry-claimed v h =
    (left_by (decr_entry (some v)).0 v, ground arith, ground arith, ground arith)

module _ (chash : Chash ℕ RefValue ◌==◌) where
  -- Every call of the history on `d` returns ok, and none adds `d` again.
  abbrev pub AllOk : ℕ → Refcounter chash → List Call → Type 0
  AllOk d rc [] = Unit {0}
  AllOk d rc (c ∷ cs) =
      (target c ≡ d → (¬ IsAdd c) × ((step chash rc c).1 ≡ ok)) × AllOk d (step chash rc c).0 cs

  at_target :
      (rc : Refcounter chash) (c : Call) (d : ℕ) (e : Option RefValue)
      → refvalue_find chash rc d ≡ e
      → target c ≡ d
      → (refvalue_find chash (step chash rc c).0 d ≡ (step_entry c e).0)
        × ((step chash rc c).1 ≡ (step_entry c e).1)
  at_target rc c d e f t =
      let (finds, code, effects) = step-ActsAs chash rc c in
      let g : refvalue_find chash rc (target c) ≡ e = rw t f in
      rw (← f, ← t) (ground (arith, finds (target c)), code)

  off_target :
      (rc : Refcounter chash) (c : Call) (d : ℕ)
      → (target c == d) ≡ false
      → refvalue_find chash (step chash rc c).0 d ≡ refvalue_find chash rc d
  off_target rc c d b = rw ((step-ActsAs chash rc c).0 d, b)

  -- An address that is not in the table has no call that returns ok but an add.
  step-gone :
      (rc : Refcounter chash) (c : Call) (d : ℕ)
      → refvalue_find chash rc d ≡ none
      → (target c ≡ d → (¬ IsAdd c) × ((step chash rc c).1 ≡ ok))
      → refvalue_find chash (step chash rc c).0 d ≡ none
  step-gone rc c d g o = elim (Bool-cases (target c == d)) [
    | inl b ↦
        let t = (==_iff (target c) d).0 b in
        let (finds, code) = at_target rc c d none g t in
        absurd (step_entry-gone c (o t).0 (sym code ∙ (o t).1))
    | inr b ↦ off_target rc c d b ∙ g
  ]

  run-gone :
      (rc : Refcounter chash) (cs : List Call) (d : ℕ)
      → refvalue_find chash rc d ≡ none
      → AllOk d rc cs
      → refvalue_find chash (run chash rc cs) d ≡ none
  unfolding run
  run-gone rc [] d g o = g
  run-gone rc (c ∷ cs) d g o = run-gone (step chash rc c).0 cs d (step-gone rc c d g o.0) o.1

  -- The entry of `d` after one call: gone, or with its counters in balance.
  step-ledger :
      (rc : Refcounter chash) (c : Call) (d : ℕ) (v : RefValue)
      → AllSound chash rc
      → refvalue_find chash rc d ≡ some v
      → (target c ≡ d → (¬ IsAdd c) × ((step chash rc c).1 ≡ ok))
      → (refvalue_find chash (step chash rc c).0 d ≡ none)
        ⊎ ((w : RefValue) × (refvalue_find chash (step chash rc c).0 d ≡ some w)
            × (w.visits + (if target c == d then visits_ended c else 0)
                ≡ v.visits + (if target c == d then visits_taken c else 0))
            × (w.claims + (if target c == d then claims_ended c else 0)
                ≡ v.claims + (if target c == d then claims_taken c else 0)))
  step-ledger rc c d v s f o = elim (Bool-cases (target c == d)) [
    | inl b ↦
        let t = (==_iff (target c) d).0 b in
        let (finds, code) = at_target rc c d (some v) f t in
        elim (Option-cases (step_entry c (some v)).0) [
          | inl g ↦ inl (finds ∙ g)
          | inr (w, g) ↦
              let balance =
                step_entry-Balanced c v w (o t).0 (subst (SoundEntry d) f (s d)).visited
                  (sym code ∙ (o t).1) g in
              inr (w, finds ∙ g, rw b balance.visits_balance, rw b balance.claims_balance)
        ]
    | inr b ↦ inr (v, off_target rc c d b ∙ f, rw b, rw b)
  ]

  -- From a state in which every entry stands under its own address with 1 to INT_MAX visits: where no
  -- call of a history adds an address that is in the table, every call on it returns ok, and it is
  -- still there at the end, its visits have grown by the incr and claim calls on it less the decr and
  -- unclaim calls, and its claims by the claim calls less the unclaim calls.
  pub run-ledger :
      (rc : Refcounter chash) (cs : List Call) (d : ℕ) (v w : RefValue)
      → AllSound chash rc
      → AllOk d rc cs
      → refvalue_find chash rc d ≡ some v
      → refvalue_find chash (run chash rc cs) d ≡ some w
      → (w.visits + total visits_ended d cs ≡ v.visits + total visits_taken d cs)
        × (w.claims + total claims_ended d cs ≡ v.claims + total claims_taken d cs)
  unfolding run
  run-ledger rc [] d v w s o f e = ground arith
  run-ledger rc (c ∷ cs) d v w s o f e = elim (step-ledger rc c d v s f o.0) [
    | inl g ↦ cc (run-gone (step chash rc c).0 cs d g o.1)
    | inr (u, g, p, q) ↦
        omega (
          arith,
          run-ledger (step chash rc c).0 cs d u w (step-AllSound chash rc c s) o.1 g e,
          p,
          q,
        )
  ]

  decr_effects :
      (rc : Refcounter chash) (d : ℕ) (v : RefValue)
      → refvalue_find chash rc d ≡ some v
      → (decr_entry (some v)).2 ≡ []
      → (decr chash rc d).0.effects ≡ rc.effects
  unfolding step
  decr_effects rc d v f n =
      let (finds, code, effects) = step-ActsAs chash rc (decrs d) in
      effects ∙ rw (f, n) (append-nil rc.effects)

  -- A claimed value outlives every decr: the entry of an address with claims is still there, with
  -- those claims, and nothing is cleaned up.
  pub decr_keeps_claimed :
      (rc : Refcounter chash) (d : ℕ) (v : RefValue)
      → refvalue_find chash rc d ≡ some v
      → 0 < v.claims
      → (w : RefValue) × (refvalue_find chash (decr chash rc d).0 d ≡ some w)
        × (w.claims ≡ v.claims)
        × ((decr chash rc d).0.effects ≡ rc.effects)
  unfolding step
  decr_keeps_claimed rc d v f h =
      let (w, e, k, n) = decr_entry-claimed v h in
      let (finds, code) = at_target rc (decrs d) d (some v) f refl in
      (w, finds ∙ e, k, decr_effects rc d v f n)

  -- At INT_MAX visits a claim fails and is counted all the same: the code is
  -- resource_unavailable, the visits stay, and the claims grow by one.
  pub claim_overflow :
      (rc : Refcounter chash) (d : ℕ) (v : RefValue)
      → refvalue_find chash rc d ≡ some v
      → v.visits ≡ int_max
      → ((claim chash rc d).1 ≡ resource_unavailable)
        × (refvalue_find chash (claim chash rc d).0 d ≡ some (record v { claims = v.claims + 1 }))
  unfolding step
  claim_overflow rc d v f h =
      let (finds, code) = at_target rc (claims d) d (some v) f refl in (ground arith, ground arith)
