-- ===== src/Events/Dispatch/Fit.antt =====
-- winecord-gateway_dispatch.c: the data that a callback is handed is of the struct that it takes.
use wineberry_discord.Prelude.{
  ℕ, ◌≡◌, ◌==◌, Bool, true, false, List, [], ◌∷◌, Option, none, some, arith, refl, if◌then◌else◌,
}
use wineberry_discord.Chash.{Chash}
use wineberry_discord.Rest.{Text, same}
use wineberry_discord.Gateway.{GatewayEvent, nothing, message_create}
use wineberry_discord.Refcount.{RefValue, Refcounter}
use wineberry_discord.Commands.{Commands, User, try_perform}
use wineberry_discord.Events.{place}
use wineberry_discord.Events.Dispatch.{EventData, CacheHandler, handler_takes, CallbackTables}
use wineberry_discord.Events.Dispatch.Deliver.{
  Delivery, to_cache, to_user, Receivers, dispatch_data, gateway_dispatch,
}
use wineberry_discord.Events.Dispatch.Typed.{
  TableCall, run_calls, no_callbacks, AreChecked, IsTyped, run_calls-IsTyped,
}

module _ (takes : ℕ → EventData) where
  -- The callbacks that are called take the struct of the data that they are handed.
  abbrev pub AreFit : List Delivery → Type 0
  AreFit [] = Unit
  AreFit (to_cache handler d struct ∷ ds) = (handler_takes handler ≡ struct) × AreFit ds
  AreFit (to_user f d struct ∷ ds) = (takes f ≡ struct) × AreFit ds

  module _ (refs : Chash ℕ RefValue ◌==◌) (cleanup : EventData → ℕ) where
    abbrev pub IsDispatched : Option (Refcounter refs × List Delivery) → Type 0
    IsDispatched none = ⊥
    IsDispatched (some (rc, ds)) = AreFit ds

    dispatch_data-IsDispatched :
        (receivers : Receivers refs cleanup) (rc : Refcounter refs) (d : ℕ)
        (entry : Option EventData) (cached : Option CacheHandler) (user : Option ℕ)
        → ((h : CacheHandler) → cached ≡ some h → entry ≡ some (handler_takes h))
        → ((f : ℕ) → user ≡ some f → entry ≡ some (takes f))
        → IsDispatched (dispatch_data refs cleanup receivers rc d entry cached user)
    unfolding dispatch_data
    dispatch_data-IsDispatched receivers rc d entry none none c u = tt
    dispatch_data-IsDispatched receivers rc d none none (some f) c u =
        absurd (ground (arith, u f refl))
    dispatch_data-IsDispatched receivers rc d none (some h) user c u =
        absurd (ground (arith, c h refl))
    dispatch_data-IsDispatched receivers rc d (some struct) none (some f) c u =
        (ground (arith, u f refl), tt)
    dispatch_data-IsDispatched receivers rc d (some struct) (some h) none c u =
        (ground (arith, c h refl), tt)
    dispatch_data-IsDispatched receivers rc d (some struct) (some h) (some f) c u =
        (ground (arith, c h refl), (ground (arith, u f refl), tt))

    performed_or :
        (performed : Bool) (rc : Refcounter refs) (sent : Option (Refcounter refs × List Delivery))
        → IsDispatched sent
        → IsDispatched (if performed then some (rc, []) else sent)
    performed_or true rc sent h = tt
    performed_or false rc sent h = h

    gateway_dispatch-IsDispatched :
        (chash : Chash Text ℕ same) (has_entries : chash.Carrier → Bool)
        (receivers : Receivers refs cleanup) (user : User refs) (cmds : Commands chash has_entries)
        (t : CallbackTables) (rc : Refcounter refs) (payload : ℕ × Option Text × Text) (d : ℕ)
        (e : GatewayEvent)
        → IsTyped takes t
        → IsDispatched
            (gateway_dispatch refs cleanup chash has_entries receivers user cmds t rc payload d e)
    unfolding gateway_dispatch
    gateway_dispatch-IsDispatched chash has receivers user cmds t rc (p, raw, content) d
          message_create typed =
        performed_or (try_perform chash has refs user cmds rc p raw content).1 _ _ (
          dispatch_data-IsDispatched receivers _ d _ _ _ (typed.cached_typed (place message_create))
            (typed.user_typed (place message_create)))
    gateway_dispatch-IsDispatched chash has receivers user cmds t rc payload d nothing typed = tt
    gateway_dispatch-IsDispatched chash has receivers user cmds t rc payload d e typed =
        dispatch_data-IsDispatched receivers rc d _ _ _ (typed.cached_typed (place e))
          (typed.user_typed (place e))

-- After any history of calls of the setters and of `winecord_cache_enable` whose callbacks take the
-- structs that the setters say, whatever the callbacks do to the reference counter: the dispatch of an
-- event calls no null pointer, and hands each callback that it calls the data as the struct that the
-- callback takes.
pub gateway_dispatch-run_calls :
    (takes : ℕ → EventData) (cs : List TableCall) (refs : Chash ℕ RefValue ◌==◌)
    (cleanup : EventData → ℕ) (chash : Chash Text ℕ same) (has_entries : chash.Carrier → Bool)
    (receivers : Receivers refs cleanup) (user : User refs) (cmds : Commands chash has_entries)
    (rc : Refcounter refs) (payload : ℕ × Option Text × Text) (d : ℕ) (e : GatewayEvent)
    → AreChecked takes cs
    → IsDispatched takes refs cleanup (
        gateway_dispatch refs cleanup chash has_entries receivers user cmds
          (run_calls cs no_callbacks)
          rc
          payload
          d
          e)
gateway_dispatch-run_calls takes cs refs cleanup chash has_entries receivers user cmds rc payload d
      e checked =
    gateway_dispatch-IsDispatched takes refs cleanup chash has_entries receivers user cmds _ rc
      payload d e
      (run_calls-IsTyped takes cs no_callbacks checked
        (record { cached_typed = λ i h found. cc; user_typed = λ i f found. cc }))
