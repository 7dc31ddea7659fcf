-- ===== src/Refcount.antt =====
-- source/wineberry/discord/winecord-refcount.c: user and library data with a count of the callbacks
-- that refer to it (`visits`) and of the user's claims on it (`claims`), cleaned up when the last
-- visit ends. Every public operation holds `g_lock` from its first to its last access of the table,
-- so a history of operations by any threads is a sequence of them. Addresses are numbers; a cleanup
-- callback is the number of its function, `none` where the pointer is null. What a cleanup does is
-- an `Effect` in the order in which it happens. Logging is left out.
-- `visits` is an `int` kept below INT_MAX by the code itself. `claims` is an `int` that the code
-- increments without a test; it is a number without a bound here.
pub mod Entry
pub mod Bounds
pub mod Cleanup
pub mod Ledger
pub mod Visits
mod Tests
use wineberry_discord.Prelude.{
  ℕ, ◌+◌, ◌-◌, ◌==◌, Bool, true, false, List, [], ◌∷◌, ◌++◌, Option, none, some, ltb, if◌then◌else◌,
}
use wineberry_discord.Chash.{Chash}

pub record RefValue : Type 0 where
  pub address : ℕ
  pub cleanup : Option ℕ
  pub visits : ℕ
  pub should_free : Bool
  pub expects_client : Bool
  pub claims : ℕ

pub data Code : Type 0 where
  ok resource_unavailable resource_ownership : Code

pub data Effect : Type 0 where
  client_cleanup internal_cleanup : ℕ → ℕ → Effect
  free : ℕ → Effect

abbrev pub int_max : ℕ
int_max = 2147483647

abbrev run_callback : Option ℕ → RefValue → List Effect
run_callback none value = []
run_callback (some f) value =
    (if value.expects_client
      then client_cleanup f value.address
      else internal_cleanup f value.address)
    ∷ []

-- `_winecord_refvalue_cleanup`
unfoldable pub refvalue_cleanup : RefValue → List Effect
refvalue_cleanup value =
    run_callback value.cleanup value ++ (if value.should_free then free value.address ∷ [] else [])

abbrev pub cleanup_freed : Option RefValue → List Effect
cleanup_freed none = []
cleanup_freed (some value) = refvalue_cleanup value

pub data Call : Type 0 where
  adds_internal adds_client : ℕ → Option ℕ → Bool → Call
  incrs decrs claims unclaims : ℕ → Call

module _ (chash : Chash ℕ RefValue ◌==◌) where
  pub record Refcounter : Type 0 where
    pub refs : chash.Carrier
    pub effects : List Effect

  unfoldable pub init : Refcounter
  init = record { refs = chash.init; effects = [] }

  -- The value of an address, if `_winecord_refcounter_contains`.
  unfoldable pub refvalue_find : Refcounter → ℕ → Option RefValue
  refvalue_find rc d = if chash.contains rc.refs d then chash.lookup rc.refs d else none

  -- A store through the pointer that `_winecord_refvalue_find` returned.
  unfoldable pub store : Refcounter → ℕ → RefValue → Refcounter
  store rc d value = record rc { refs = chash.write rc.refs d value }

  unfoldable pub refvalue_init : Refcounter → ℕ → RefValue → Refcounter
  refvalue_init rc d fields =
      let (refs', freed) = chash.assign rc.refs d (record fields { address = d; visits = 1 }) in
      record { refs = refs'; effects = rc.effects ++ cleanup_freed freed }

  unfoldable pub refvalue_delete : Refcounter → ℕ → Refcounter
  refvalue_delete rc d =
      let (refs', freed) = chash.delete rc.refs d in
      record { refs = refs'; effects = rc.effects ++ cleanup_freed freed }

  unfoldable pub incr_no_lock : Refcounter → ℕ → Refcounter × Code
  incr_no_lock rc d = elim (refvalue_find rc d) [
    | none ↦ (rc, resource_unavailable)
    | some value ↦
        if value.visits == int_max
        then (rc, resource_unavailable)
        else (store rc d (record value { visits = value.visits + 1 }), ok)
  ]

  unfoldable pub decr_no_lock : Refcounter → ℕ → Refcounter × Code
  decr_no_lock rc d = elim (refvalue_find rc d) [
    | none ↦ (rc, resource_unavailable)
    | some value ↦
        if ltb value.visits value.claims
        then (rc, resource_unavailable)
        else (if ltb 0 (value.visits - 1)
            then (store rc d (record value { visits = value.visits - 1 }), ok)
            else (if value.claims == 0 then (refvalue_delete rc d, ok) else (
              store rc d (record value { visits = value.visits - 1 + 1 }),
              resource_ownership,
            )))
  ]

  unfoldable pub incr : Refcounter → ℕ → Refcounter × Code
  incr rc d = incr_no_lock rc d

  unfoldable pub decr : Refcounter → ℕ → Refcounter × Code
  decr rc d = decr_no_lock rc d

  unfoldable pub claim : Refcounter → ℕ → Refcounter × Code
  claim rc d = elim (refvalue_find rc d) [
    | none ↦ (rc, resource_unavailable)
    | some value ↦ incr_no_lock (store rc d (record value { claims = value.claims + 1 })) d
  ]

  unfoldable pub unclaim : Refcounter → ℕ → Refcounter × Code
  unclaim rc d = elim (refvalue_find rc d) [
    | none ↦ (rc, resource_unavailable)
    | some value ↦
        if value.claims == 0
        then (rc, resource_unavailable)
        else decr_no_lock (store rc d (record value { claims = value.claims - 1 })) d
  ]

  unfoldable pub add_internal : Refcounter → ℕ → Option ℕ → Bool → Refcounter
  add_internal rc d cleanup should_free = refvalue_init rc d (record {
    address = 0;
    cleanup = cleanup;
    visits = 0;
    should_free = should_free;
    expects_client = false;
    claims = 0;
  })

  unfoldable pub add_client : Refcounter → ℕ → Option ℕ → Bool → Refcounter
  add_client rc d cleanup should_free = refvalue_init rc d (record {
    address = 0;
    cleanup = cleanup;
    visits = 0;
    should_free = should_free;
    expects_client = true;
    claims = 0;
  })

  unfoldable pub step : Refcounter → Call → Refcounter × Code
  unfolding add_internal add_client incr decr claim unclaim
  step rc (adds_internal d f free') = (add_internal rc d f free', ok)
  step rc (adds_client d f free') = (add_client rc d f free', ok)
  step rc (incrs d) = incr rc d
  step rc (decrs d) = decr rc d
  step rc (claims d) = claim rc d
  step rc (unclaims d) = unclaim rc d

  unfoldable pub run : Refcounter → List Call → Refcounter
  run rc [] = rc
  run rc (c ∷ cs) = run (step rc c).0 cs
