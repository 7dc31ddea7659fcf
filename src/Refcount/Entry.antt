-- ===== src/Refcount/Entry.antt =====
-- winecord-refcount.c, one address at a time: what each operation does to the entry of an address,
-- as a function of that entry alone.
use wineberry_discord.Prelude.{
  ℕ, ◌+◌, ◌-◌, ◌≡◌, refl, sym, List, [], ◌++◌, Bool-cases, ◌==◌, Bool, true, false, Option, none,
  some, ltb, arith, if◌then◌else◌, Option-cases, inl, inr,
}
use wineberry_discord.Chash.{Chash}
use mathlib.Core.List.{append-nil}
use wineberry_discord.Refcount.{
  RefValue, Code, Refcounter, Call, ok, resource_unavailable, resource_ownership, int_max,
  adds_internal, adds_client, incrs, decrs, claims, unclaims, refvalue_find, store, refvalue_init,
  refvalue_delete, incr_no_lock, decr_no_lock, incr, decr, claim, unclaim, add_internal, add_client,
  step, Effect, refvalue_cleanup, cleanup_freed,
}

-- What an operation leaves of an entry, its code, and the effects that it has.
abbrev pub Outcome : Type 0
Outcome = Option RefValue × Code × List Effect

-- The operations on an entry. `none` is an address that is not in the table.
abbrev pub incr_entry : Option RefValue → Outcome
incr_entry none = (none, resource_unavailable, [])
incr_entry (some v) =
    if v.visits == int_max
    then (some v, resource_unavailable, [])
    else (some (record v { visits = v.visits + 1 }), ok, [])

abbrev pub decr_entry : Option RefValue → Outcome
decr_entry none = (none, resource_unavailable, [])
decr_entry (some v) =
    if ltb v.visits v.claims
    then (some v, resource_unavailable, [])
    else (if ltb 0 (v.visits - 1)
        then (some (record v { visits = v.visits - 1 }), ok, [])
        else (if v.claims == 0
            then (none, ok, refvalue_cleanup v)
            else (some (record v { visits = v.visits - 1 + 1 }), resource_ownership, [])))

abbrev pub claim_entry : Option RefValue → Outcome
claim_entry none = (none, resource_unavailable, [])
claim_entry (some v) = incr_entry (some (record v { claims = v.claims + 1 }))

abbrev pub unclaim_entry : Option RefValue → Outcome
unclaim_entry none = (none, resource_unavailable, [])
unclaim_entry (some v) =
    if v.claims == 0
    then (some v, resource_unavailable, [])
    else decr_entry (some (record v { claims = v.claims - 1 }))

abbrev pub fresh : ℕ → Option ℕ → Bool → Bool → RefValue
fresh d cleanup should_free expects_client = record {
  address = d;
  cleanup = cleanup;
  visits = 1;
  should_free = should_free;
  expects_client = expects_client;
  claims = 0;
}

abbrev pub target : Call → ℕ
target (adds_internal d f s) = d
target (adds_client d f s) = d
target (incrs d) = d
target (decrs d) = d
target (claims d) = d
target (unclaims d) = d

-- An address that is added again loses its old value, which is cleaned up.
abbrev pub step_entry : Call → Option RefValue → Outcome
step_entry (adds_internal d f s) e = (some (fresh d f s false), ok, cleanup_freed e)
step_entry (adds_client d f s) e = (some (fresh d f s true), ok, cleanup_freed e)
step_entry (incrs d) e = incr_entry e
step_entry (decrs d) e = decr_entry e
step_entry (claims d) e = claim_entry e
step_entry (unclaims d) e = unclaim_entry e

-- An operation on `d` acts as `o` on the entry of `d`, and leaves every other entry alone.
abbrev pub ActsAs :
    (chash : Chash ℕ RefValue ◌==◌)
    → ℕ
    → Refcounter chash
    → Refcounter chash × Code
    → Outcome
    → Type 0
ActsAs chash d rc r o =
    ((j : ℕ) → refvalue_find chash r.0 j ≡ (if d == j then o.0 else refvalue_find chash rc j))
    × (r.1 ≡ o.1)
    × (r.0.effects ≡ rc.effects ++ o.2)

module _ (chash : Chash ℕ RefValue ◌==◌) where
  open chash use {lookup}

  pub find-lookup : (rc : Refcounter chash) (d : ℕ) → refvalue_find chash rc d ≡ lookup rc.refs d
  unfolding refvalue_find
  find-lookup rc d = elim (Option-cases (lookup rc.refs d)) [
    | inl e ↦ rw (chash.contains_lem rc.refs d, e)
    | inr (v, e) ↦ rw (chash.contains_lem rc.refs d, e)
  ]

  pub find-store :
      (rc : Refcounter chash) (d : ℕ) (v w : RefValue) (j : ℕ)
      → refvalue_find chash rc d ≡ some v
      → refvalue_find chash (store chash rc d w) j
        ≡ (if d == j then some w else refvalue_find chash rc j)
  unfolding store
  find-store rc d v w j e =
      rw (find-lookup (record rc { refs = chash.write rc.refs d w }) j, find-lookup rc j)
        (chash.lookup-write rc.refs d w j
          (ground (arith, chash.contains_lem rc.refs d, find-lookup rc d)))

  pub find-delete :
      (rc : Refcounter chash) (d j : ℕ)
      → refvalue_find chash (refvalue_delete chash rc d) j
        ≡ (if d == j then none else refvalue_find chash rc j)
  unfolding refvalue_delete
  find-delete rc d j = ground (
    arith,
    find-lookup (refvalue_delete chash rc d) j,
    find-lookup rc j,
    chash.lookup-delete rc.refs d j,
  )

  pub find-init :
      (rc : Refcounter chash) (d : ℕ) (v : RefValue) (j : ℕ)
      → refvalue_find chash (refvalue_init chash rc d v) j
        ≡ (if d == j then some (record v { address = d; visits = 1 }) else refvalue_find chash rc j)
  unfolding refvalue_init
  find-init rc d v j = ground (
    arith,
    find-lookup (refvalue_init chash rc d v) j,
    find-lookup rc j,
    chash.lookup-assign rc.refs d (record v { address = d; visits = 1 }) j,
  )

  effects-init :
      (rc : Refcounter chash) (d : ℕ) (v : RefValue)
      → (refvalue_init chash rc d v).effects
        ≡ rc.effects ++ cleanup_freed (refvalue_find chash rc d)
  unfolding refvalue_init
  effects-init rc d v = rw (chash.assign_frees rc.refs d, find-lookup rc d)

  effects-delete :
      (rc : Refcounter chash) (d : ℕ)
      → (refvalue_delete chash rc d).effects
        ≡ rc.effects ++ cleanup_freed (refvalue_find chash rc d)
  unfolding refvalue_delete
  effects-delete rc d = rw (chash.delete_frees rc.refs d, find-lookup rc d)

  unchanged :
      (rc : Refcounter chash) (d : ℕ) (c : Code) (e : Option RefValue)
      → refvalue_find chash rc d ≡ e
      → ActsAs chash d rc (rc, c) (e, c, [])
  unchanged rc d c e h = (λ j. ground (arith), refl, sym (append-nil rc.effects))

  stored :
      (rc : Refcounter chash) (d : ℕ) (c : Code) (v w : RefValue)
      → refvalue_find chash rc d ≡ some v
      → ActsAs chash d rc (store chash rc d w, c) (some w, c, [])
  unfolding store
  stored rc d c v w h = (λ j. find-store rc d v w j h, refl, sym (append-nil rc.effects))

  incr-ActsAs :
      (rc : Refcounter chash) (d : ℕ)
      → ActsAs chash d rc (incr_no_lock chash rc d) (incr_entry (refvalue_find chash rc d))
  unfolding incr_no_lock
  incr-ActsAs rc d = elim (Option-cases (refvalue_find chash rc d)) [
    | inl e ↦ rw (e, incr_no_lock) (unchanged rc d resource_unavailable none e)
    | inr (v, e) ↦
        rw (e, incr_no_lock)
          (elim (Bool-cases (v.visits == int_max)) [
            | inl b ↦ rw b (unchanged rc d resource_unavailable (some v) e)
            | inr b ↦ rw b (stored rc d ok v (record v { visits = v.visits + 1 }) e)
          ])
  ]

  removed :
      (rc : Refcounter chash) (d : ℕ) (v : RefValue)
      → refvalue_find chash rc d ≡ some v
      → ActsAs chash d rc (refvalue_delete chash rc d, ok) (none, ok, refvalue_cleanup v)
  removed rc d v h = (λ j. find-delete rc d j, refl, rw (effects-delete rc d, h))

  decr-ActsAs :
      (rc : Refcounter chash) (d : ℕ)
      → ActsAs chash d rc (decr_no_lock chash rc d) (decr_entry (refvalue_find chash rc d))
  unfolding decr_no_lock
  decr-ActsAs rc d = elim (Option-cases (refvalue_find chash rc d)) [
    | inl e ↦ rw (e, decr_no_lock) (unchanged rc d resource_unavailable none e)
    | inr (v, e) ↦
        rw (e, decr_no_lock)
          (elim (Bool-cases (ltb v.visits v.claims)) [
            | inl b ↦ rw b (unchanged rc d resource_unavailable (some v) e)
            | inr b ↦ rw b (elim (Bool-cases (ltb 0 (v.visits - 1))) [
              | inl p ↦ rw p (stored rc d ok v (record v { visits = v.visits - 1 }) e)
              | inr p ↦ rw p (elim (Bool-cases (v.claims == 0)) [
                | inl q ↦ rw q (removed rc d v e)
                | inr q ↦
                    rw q
                      (stored rc d resource_ownership v (record v { visits = v.visits - 1 + 1 }) e)
              ])
            ])
          ])
  ]

  stored_self :
      (rc : Refcounter chash) (d : ℕ) (v w : RefValue)
      → refvalue_find chash rc d ≡ some v
      → refvalue_find chash (store chash rc d w) d ≡ some w
  stored_self rc d v w h = ground (arith, find-store rc d v w d h)

  -- An operation after a store through the same pointer.
  after_store :
      (rc : Refcounter chash) (d : ℕ) (v w : RefValue) (op : Option RefValue → Outcome)
      (r : Refcounter chash × Code)
      → refvalue_find chash rc d ≡ some v
      → ActsAs chash d (store chash rc d w) r (op (refvalue_find chash (store chash rc d w) d))
      → ActsAs chash d rc r (op (some w))
  unfolding store
  after_store rc d v w op r h acts =
      let (finds, code, effects) = rw (stored_self rc d v w h) at acts in
      (λ j. ground (arith, finds j, find-store rc d v w j h), code, effects)

  claim-ActsAs :
      (rc : Refcounter chash) (d : ℕ)
      → ActsAs chash d rc (claim chash rc d) (claim_entry (refvalue_find chash rc d))
  unfolding claim
  claim-ActsAs rc d = elim (Option-cases (refvalue_find chash rc d)) [
    | inl e ↦ rw (e, claim) (unchanged rc d resource_unavailable none e)
    | inr (v, e) ↦
        rw (e, claim)
          (after_store rc d v (record v { claims = v.claims + 1 }) incr_entry _ e (incr-ActsAs _ d))
  ]

  unclaim-ActsAs :
      (rc : Refcounter chash) (d : ℕ)
      → ActsAs chash d rc (unclaim chash rc d) (unclaim_entry (refvalue_find chash rc d))
  unfolding unclaim
  unclaim-ActsAs rc d = elim (Option-cases (refvalue_find chash rc d)) [
    | inl e ↦ rw (e, unclaim) (unchanged rc d resource_unavailable none e)
    | inr (v, e) ↦
        rw (e, unclaim)
          (elim (Bool-cases (v.claims == 0)) [
            | inl b ↦ rw b (unchanged rc d resource_unavailable (some v) e)
            | inr b ↦ rw b (
                after_store rc d v (record v { claims = v.claims - 1 }) decr_entry _ e
                  (decr-ActsAs _ d))
          ])
  ]

  added :
      (rc : Refcounter chash) (d : ℕ) (v : RefValue)
      → ActsAs chash d rc
          (refvalue_init chash rc d v, ok)
          (
            some (record v { address = d; visits = 1 }),
            ok,
            cleanup_freed (refvalue_find chash rc d),
          )
  added rc d v = (λ j. find-init rc d v j, refl, effects-init rc d v)

  pub step-ActsAs :
      (rc : Refcounter chash) (c : Call)
      → ActsAs chash
          (target c)
          rc
          (step chash rc c)
          (step_entry c (refvalue_find chash rc (target c)))
  unfolding step add_internal add_client incr decr
  step-ActsAs rc (adds_internal d f s) = added rc d _
  step-ActsAs rc (adds_client d f s) = added rc d _
  step-ActsAs rc (incrs d) = incr-ActsAs rc d
  step-ActsAs rc (decrs d) = decr-ActsAs rc d
  step-ActsAs rc (claims d) = claim-ActsAs rc d
  step-ActsAs rc (unclaims d) = unclaim-ActsAs rc d
