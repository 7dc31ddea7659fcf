-- ===== src/Refcount/Tests.antt =====
-- Runs of the reference counter over a table by an association list, and its theorems at them.
use wineberry_discord.Prelude.{
  ℕ, ◌+◌, ◌≡◌, refl, ◌==◌, none, some, List, [], ◌∷◌, ◌++◌, arith, true, false,
}
use wineberry_discord.Chash.{Chash, assoc_table}
use wineberry_discord.Refcount.{
  RefValue, Refcounter, Call, adds_internal, adds_client, incrs, decrs, claims, unclaims,
  internal_cleanup, free, int_max, refvalue_find, init, step, run, refvalue_init, incr_no_lock,
  decr_no_lock, store, refvalue_delete, refvalue_cleanup,
}
use wineberry_discord.Refcount.Entry.{fresh}
use wineberry_discord.Refcount.Bounds.{AllSound}
use wineberry_discord.Refcount.Cleanup.{on, due, added_cleanups, run-added_cleanups}
use wineberry_discord.Refcount.Ledger.{
  total, visits_taken, visits_ended, claims_taken, claims_ended, run-ledger, AllOk,
}

abbrev table : Chash ℕ RefValue ◌==◌
table = assoc_table RefValue

abbrev held : RefValue
held = record (fresh 8 none true false) { visits = 2; claims = 1 }

-- Two values, one of them claimed by the user.
abbrev loaded : Refcounter table
loaded = record { refs = (8, held) ∷ (9, fresh 9 (some 4) true false) ∷ []; effects = [] }

abbrev history : List Call
history =
    adds_internal 9 (some 4) true
    ∷ claims 9
    ∷ decrs 9
    ∷ incrs 7
    ∷ unclaims 9
    ∷ adds_client 9 none false
    ∷ []

history_effects : (run table (init table) history).effects ≡ internal_cleanup 4 9 ∷ free 9 ∷ []
unfolding run step init refvalue_init refvalue_find incr_no_lock decr_no_lock store refvalue_delete
    refvalue_cleanup
history_effects = refl

run-added_cleanups_example :
    let rc = run table (init table) history in
    on 9 rc.effects ++ due table 9 rc ≡ added_cleanups 9 history
run-added_cleanups_example = run-added_cleanups table history 9

abbrev traffic : List Call
traffic = claims 8 ∷ decrs 8 ∷ incrs 9 ∷ unclaims 8 ∷ []

loaded-AllSound : AllSound table loaded
unfolding refvalue_find
loaded-AllSound d = ground arith

traffic-AllOk : AllOk table 8 loaded traffic
unfolding step refvalue_find incr_no_lock decr_no_lock store
traffic-AllOk =
    let none_added : ⊥ → ⊥ = λ n. n in
    (
      (λ t. (none_added, refl)),
      ((λ t. (none_added, refl)), ((λ t. (none_added, refl)), ((λ t. (none_added, refl)), tt))),
    )

run-ledger_example :
    (1 + total visits_ended 8 traffic ≡ 2 + total visits_taken 8 traffic)
    × (1 + total claims_ended 8 traffic ≡ 1 + total claims_taken 8 traffic)
unfolding run step refvalue_find incr_no_lock decr_no_lock store
run-ledger_example =
    run-ledger table loaded traffic 8 held
      (record (fresh 8 none true false) { visits = 1; claims = 1 }) loaded-AllSound traffic-AllOk
      refl refl

abbrev full : Refcounter table
full = record {
  refs = (8, record (fresh 8 none true false) { visits = int_max }) ∷ [];
  effects = [];
}
