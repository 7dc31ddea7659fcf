-- ===== src/Events/Dispatch/Tests.antt =====
-- winecord-gateway_dispatch.c at a message: the cache keeps a visit of it, and the user claims it.
use wineberry_discord.Prelude.{
  ℕ, ◌+◌, Bool, List, ◌==◌, ◌≡◌, [], ◌∷◌, none, some, true, false, arith, refl,
}
use wineberry_discord.Chash.{Chash, assoc_table}
use wineberry_discord.Chash.Texts.{text_table}
use wineberry_discord.Gateway.{message_create}
use wineberry_discord.Refcount.{
  RefValue, Refcounter, incr, claim, incrs, claims, refvalue_find, step,
}
use wineberry_discord.Refcount.Entry.{step-ActsAs}
use wineberry_discord.Commands.{User, Commands}
use wineberry_discord.Events.Setters.Calls.{on_message_create}
use wineberry_discord.Events.Dispatch.{EventData, winecord_message}
use wineberry_discord.Events.Dispatch
use wineberry_discord.Cache
use wineberry_discord.Cache.{cache_enable}
use wineberry_discord.Anomap.Sorted.{sorted_map}
use wineberry_discord.Events.Dispatch.Cached.{with_cache, message_create-IsFinished}
use wineberry_discord.Events.Dispatch.Deliver.{
  Receivers, hold_data, deliver, dispatch_data, gateway_dispatch,
}
use wineberry_discord.Events.Dispatch.Typed.{TableCall, sets, enables, run_calls, no_callbacks}
use wineberry_discord.Events.Dispatch.Fit.{IsDispatched, gateway_dispatch-run_calls}
use wineberry_discord.Refcount.Visits.{Keeps}
use wineberry_discord.Events.Dispatch.Released.{data_at, IsFinished, dispatch_data-IsFinished}

abbrev table : Chash ℕ RefValue ◌==◌
table = assoc_table RefValue

abbrev cleanup_of : EventData → ℕ
cleanup_of struct = 2

abbrev receivers : Receivers table cleanup_of
receivers = record {
  cache_effect = λ handler d rc. (incr table rc d).0;
  user_effect = λ f d rc. (claim table rc d).0;
}

incr-Keeps : (d : ℕ) → Keeps table (λ rc. (incr table rc d).0) d 1 0
unfolding step
incr-Keeps d rc v e le =
    let (finds, code, effects) = step-ActsAs table rc (incrs d) in ground (arith, e, le, finds d)

claim-Keeps : (d : ℕ) → Keeps table (λ rc. (claim table rc d).0) d 1 1
unfolding step
claim-Keeps d rc v e le =
    let (finds, code, effects) = step-ActsAs table rc (claims d) in ground (arith, e, le, finds d)

abbrev none_held : Refcounter table
none_held = record { refs = []; effects = [] }

none_held_lem : refvalue_find table none_held 50 ≡ none
unfolding refvalue_find
none_held_lem = refl

dispatch_data-IsFinished_example :
    IsFinished table cleanup_of none_held
      (hold_data table cleanup_of none_held 50 winecord_message)
      (deliver table cleanup_of receivers none_held 50 winecord_message
        (some Dispatch.on_message_create)
        (some 5))
      (data_at table cleanup_of 50 winecord_message)
      2
      1
      (dispatch_data table cleanup_of receivers none_held 50
        (some winecord_message)
        (some Dispatch.on_message_create)
        (some 5))
dispatch_data-IsFinished_example =
    dispatch_data-IsFinished table cleanup_of receivers none_held 50 winecord_message
      (some Dispatch.on_message_create) (some 5) 1 0 1 1 refl none_held_lem (incr-Keeps 50)
      (claim-Keeps 50) (omega arith) (omega arith) (omega arith)

abbrev filled : text_table.Carrier → Bool
filled [] = false
filled (entry ∷ t) = true

-- No command, and no prefix.
abbrev bare : Commands text_table filled
bare = record { table = []; fallback = none; prefix = [] }

-- The cache of messages, and the user's callback 5 for their creation.
abbrev calls : List TableCall
calls =
    enables false false true
    ∷ sets (record { setter = on_message_create; connected = false; cb = some 5 })
    ∷ []

abbrev still : User table
still = record { effect = λ f text p rc. rc }

gateway_dispatch-run_calls_example :
    IsDispatched
      (λ f. winecord_message)
      table
      cleanup_of
      (gateway_dispatch table cleanup_of text_table filled receivers still bare
        (run_calls calls no_callbacks)
        none_held
        (60, some (97 ∷ []), 97 ∷ [])
        50
        message_create)
gateway_dispatch-run_calls_example =
    gateway_dispatch-run_calls (λ f. winecord_message) calls table cleanup_of text_table filled
      receivers still bare none_held (60, some (97 ∷ []), 97 ∷ []) 50 message_create
      (tt, ((λ f given. refl), tt))

-- The first message of the guild 5, which the user claims.
message_create-IsFinished_example :
    let r =
      with_cache sorted_map table cleanup_of
        (cache_enable sorted_map)
        (Cache.message_create 5 9 50)
        (λ f d rc. (claim table rc d).0) in
    IsFinished table cleanup_of none_held
      (hold_data table cleanup_of none_held 50 winecord_message)
      (deliver table cleanup_of r none_held 50 winecord_message
        (some Dispatch.on_message_create)
        (some 5))
      (data_at table cleanup_of 50 winecord_message)
      (1 + 1)
      (0 + 1)
      (dispatch_data table cleanup_of r none_held 50
        (some winecord_message)
        (some Dispatch.on_message_create)
        (some 5))
unfolding cache_enable
message_create-IsFinished_example =
    message_create-IsFinished sorted_map table cleanup_of (cache_enable sorted_map) 5 9 50
      (record { valid = false; guild_map = sorted_map.init; msg_map = sorted_map.init })
      (λ f d rc. (claim table rc d).0) none_held (some 5) 1 1 refl none_held_lem (claim-Keeps 50)
      (omega arith) (omega arith)
