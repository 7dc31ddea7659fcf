-- ===== src/Refcount/Cleanup.antt =====
-- winecord-refcount.c: each value that is added is cleaned up once, in order, and only when it is
-- removed or overwritten.
use wineberry_discord.Prelude.{
  ℕ, ◌≡◌, refl, sym, ap, ◌∙◌, ◌==◌, true, false, Option, none, some, List, [], ◌∷◌, ◌++◌, arith,
  if◌then◌else◌, Bool-cases, inl, inr, ==_iff,
}
use mathlib.Core.List.{append-nil, append_assoc}
use wineberry_discord.Chash.{Chash}
use wineberry_discord.Refcount.{
  RefValue, Refcounter, Call, adds_internal, adds_client, incrs, decrs, claims, unclaims, Effect,
  client_cleanup, internal_cleanup, free, refvalue_cleanup, cleanup_freed, refvalue_find, init,
  step, run,
}
use wineberry_discord.Refcount.Entry.{target, fresh, step_entry, step-ActsAs, find-lookup}
use wineberry_discord.Refcount.Bounds.{SoundEntry, AllSound, step-AllSound, init-AllSound}

abbrev pub effect_address : Effect → ℕ
effect_address (client_cleanup f d) = d
effect_address (internal_cleanup f d) = d
effect_address (free d) = d

-- The effects on one address, in order.
abbrev pub on : ℕ → List Effect → List Effect
on d [] = []
on d (e ∷ es) = if effect_address e == d then e ∷ on d es else on d es

on-append : (d : ℕ) (es fs : List Effect) → on d (es ++ fs) ≡ on d es ++ on d fs
on-append d [] fs = refl
on-append d (e ∷ es) fs = ground (arith, on-append d es fs)

-- The cleanup of the value that a call adds.
abbrev pub added_by : Call → List Effect
added_by (adds_internal d f s) = refvalue_cleanup (fresh d f s false)
added_by (adds_client d f s) = refvalue_cleanup (fresh d f s true)
added_by _ = []

-- What the cleanup of the values that `cs` adds at `d` does, value after value.
abbrev pub added_cleanups : ℕ → List Call → List Effect
added_cleanups d [] = []
added_cleanups d (c ∷ cs) = (if target c == d then added_by c else []) ++ added_cleanups d cs

on-cleanup :
    (k d : ℕ) (e : Option RefValue)
    → SoundEntry k e
    → on d (cleanup_freed e) ≡ (if k == d then cleanup_freed e else [])
unfolding refvalue_cleanup
on-cleanup k d none h = ground arith
on-cleanup k d (some v) h = ground arith

on-step_entry :
    (c : Call) (e : Option RefValue) (d : ℕ)
    → SoundEntry (target c) e
    → on d (step_entry c e).2 ≡ (if target c == d then (step_entry c e).2 else [])
unfolding refvalue_cleanup
on-step_entry (adds_internal k f s) e d h = on-cleanup k d e h
on-step_entry (adds_client k f s) e d h = on-cleanup k d e h
on-step_entry (incrs k) e d h = ground arith
on-step_entry (decrs k) e d h = ground (arith, on-cleanup k d e h)
on-step_entry (claims k) e d h = ground arith
on-step_entry (unclaims k) e d h = ground arith

-- On one entry: the effects of a call and the cleanup that is still due are the cleanup that was due
-- and that of a value that the call adds.
step_entry-due :
    (c : Call) (e : Option RefValue)
    → (step_entry c e).2 ++ cleanup_freed (step_entry c e).0 ≡ cleanup_freed e ++ added_by c
unfolding refvalue_cleanup
step_entry-due (adds_internal d f s) e = refl
step_entry-due (adds_client d f s) e = refl
step_entry-due (incrs d) e = ground (arith, append-nil (cleanup_freed e))
step_entry-due (decrs d) e = ground (arith, append-nil (cleanup_freed e))
step_entry-due (claims d) e = ground (arith, append-nil (cleanup_freed e))
step_entry-due (unclaims d) e = ground (arith, append-nil (cleanup_freed e))

module _ (chash : Chash ℕ RefValue ◌==◌) where
  -- The cleanup of the value that the table holds at `d`.
  abbrev pub due : ℕ → Refcounter chash → List Effect
  due d rc = cleanup_freed (refvalue_find chash rc d)

  step-due :
      (rc : Refcounter chash) (c : Call) (d : ℕ)
      → AllSound chash rc
      → on d (step chash rc c).0.effects ++ due d (step chash rc c).0
        ≡ (on d rc.effects ++ due d rc) ++ (if target c == d then added_by c else [])
  step-due rc c d h =
      let (finds, code, effects) = step-ActsAs chash rc c in
      elim (Bool-cases (target c == d)) [
        | inl b ↦
            rw (effects, on-append d rc.effects, on-step_entry c _ d (h (target c)), finds d, b)
              (rw (append_assoc, append_assoc, ← (==_iff (target c) d).0 b)
                (ap (λ es. on (target c) rc.effects ++ es) (step_entry-due c _)))
        | inr b ↦
            rw (effects, on-append d rc.effects, on-step_entry c _ d (h (target c)), finds d, b)
              (simp append-nil)
      ]

  run-due :
      (rc : Refcounter chash) (cs : List Call) (d : ℕ)
      → AllSound chash rc
      → on d (run chash rc cs).effects ++ due d (run chash rc cs)
        ≡ (on d rc.effects ++ due d rc) ++ added_cleanups d cs
  unfolding run
  run-due rc [] d h = sym (append-nil _)
  run-due rc (c ∷ cs) d h =
      run-due (step chash rc c).0 cs d (step-AllSound chash rc c h)
      ∙ ap (λ es. es ++ added_cleanups d cs) (step-due rc c d h)
      ∙ append_assoc (on d rc.effects ++ due d rc) _ _

  -- After any history on a new refcounter, what has been done to an address so far, followed by the
  -- cleanup of the value that the table still holds there, is the cleanup of every value that was
  -- added at that address, once each and in order: none is forgotten, repeated or handed to the
  -- wrong kind of callback.
  pub run-added_cleanups :
      (cs : List Call) (d : ℕ)
      → let rc = run chash (init chash) cs in on d rc.effects ++ due d rc ≡ added_cleanups d cs
  unfolding init
  run-added_cleanups cs d =
      run-due (init chash) cs d (init-AllSound chash)
      ∙ rw (find-lookup chash (init chash) d, chash.lookup-init d) refl
