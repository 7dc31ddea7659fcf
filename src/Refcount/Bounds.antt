-- ===== src/Refcount/Bounds.antt =====
-- winecord-refcount.c: what holds of every entry of the table after any history.
use wineberry_discord.Prelude.{
  ℕ, ◌≤◌, ◌≡◌, ◌==◌, Option, none, some, arith, Bool-cases, inl, inr, ==_iff,
}
use wineberry_discord.Chash.{Chash}
use wineberry_discord.Refcount.{
  RefValue, Refcounter, Call, adds_internal, adds_client, incrs, decrs, claims, unclaims, int_max,
  refvalue_find, init, step,
}
use wineberry_discord.Refcount.Entry.{target, step_entry, step-ActsAs, find-lookup}
use mathlib.Core.Path.{subst}

-- An entry stands under the address of its data, and its visits are an `int` above 0.
pub record IsSound (d : ℕ) (v : RefValue) : Type 0 where
  pub own_address : v.address ≡ d
  pub visited : 1 ≤ v.visits
  pub in_range : v.visits ≤ int_max

abbrev pub SoundEntry : ℕ → Option RefValue → Type 0
SoundEntry d none = Unit {0}
SoundEntry d (some v) = IsSound d v

step_entry-SoundEntry :
    (c : Call) (e : Option RefValue)
    → SoundEntry (target c) e
    → SoundEntry (target c) (step_entry c e).0
step_entry-SoundEntry (adds_internal d f s) e h = omega arith
step_entry-SoundEntry (adds_client d f s) e h = omega arith
step_entry-SoundEntry (incrs d) e h = ground arith
step_entry-SoundEntry (decrs d) e h = ground arith
step_entry-SoundEntry (claims d) e h = ground arith
step_entry-SoundEntry (unclaims d) e h = ground arith

module _ (chash : Chash ℕ RefValue ◌==◌) where
  abbrev pub AllSound : Refcounter chash → Type 0
  AllSound rc = (d : ℕ) → SoundEntry d (refvalue_find chash rc d)

  pub step-AllSound :
      (rc : Refcounter chash) (c : Call) → AllSound rc → AllSound (step chash rc c).0
  step-AllSound rc c h d = elim (Bool-cases (target c == d)) [
    | inl b ↦
        rw ((step-ActsAs chash rc c).0 d, b)
          (subst (λ k. SoundEntry k (step_entry c (refvalue_find chash rc (target c))).0)
            ((==_iff (target c) d).0 b) (step_entry-SoundEntry c _ (h (target c))))
    | inr b ↦ rw ((step-ActsAs chash rc c).0 d, b) (h d)
  ]

  pub init-AllSound : AllSound (init chash)
  unfolding init
  init-AllSound d = rw (find-lookup chash (init chash) d, chash.lookup-init d) tt
