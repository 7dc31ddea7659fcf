-- ===== src/Events/Dispatch/Deliver.antt =====
-- winecord-gateway_dispatch.c: `winecord_gateway_dispatch`, which calls the callbacks of an event, with
-- its data in the reference counter while they run.
use wineberry_discord.Prelude.{
  ℕ, ◌==◌, Bool, true, List, [], ◌∷◌, Option, none, some, if◌then◌else◌,
}
use wineberry_discord.Chash.{Chash}
use wineberry_discord.Rest.{Text, same}
use wineberry_discord.Gateway.{GatewayEvent, nothing, message_create}
use wineberry_discord.Refcount.{RefValue, Refcounter, incr, decr, add_internal}
use wineberry_discord.Commands.{Commands, User, is_unavailable, try_perform}
use wineberry_discord.Events.{place}
use wineberry_discord.Events.Dispatch.{
  EventData, dispatch_table, entry_at, CacheHandler, CallbackTables,
}

-- A call of a callback, with the address of the data and the struct that it was made as.
pub data Delivery : Type 0 where
  to_cache : CacheHandler → ℕ → EventData → Delivery
  to_user : ℕ → ℕ → EventData → Delivery

abbrev pub deliveries : Option CacheHandler → Option ℕ → ℕ → EventData → List Delivery
deliveries none none d struct = []
deliveries none (some f) d struct = to_user f d struct ∷ []
deliveries (some handler) none d struct = to_cache handler d struct ∷ []
deliveries (some handler) (some f) d struct = to_cache handler d struct ∷ to_user f d struct ∷ []

module _ (refs : Chash ℕ RefValue ◌==◌) (cleanup : EventData → ℕ) where
  -- What the callbacks do to the reference counter, with the data at an address.
  pub record Receivers : Type 0 where
    pub cache_effect : CacheHandler → ℕ → Refcounter refs → Refcounter refs
    pub user_effect : ℕ → ℕ → Refcounter refs → Refcounter refs

  abbrev pub call_cached : Receivers → Option CacheHandler → ℕ → Refcounter refs → Refcounter refs
  call_cached receivers none d rc = rc
  call_cached receivers (some handler) d rc = receivers.cache_effect handler d rc

  abbrev pub call_user : Receivers → Option ℕ → ℕ → Refcounter refs → Refcounter refs
  call_user receivers none d rc = rc
  call_user receivers (some f) d rc = receivers.user_effect f d rc

  -- The data is referred to while the callbacks run.
  unfoldable pub hold_data : Refcounter refs → ℕ → EventData → Refcounter refs
  hold_data rc d struct =
      let (rc', code) = incr refs rc d in
      if is_unavailable code then add_internal refs rc' d (some (cleanup struct)) true else rc'

  abbrev pub deliver :
      Receivers → Refcounter refs → ℕ → EventData → Option CacheHandler → Option ℕ → Refcounter refs
  deliver receivers rc d struct cached user =
      call_user receivers user d (call_cached receivers cached d (hold_data rc d struct))

  abbrev send_data :
      Receivers
      → Refcounter refs
      → ℕ
      → Option EventData
      → Option CacheHandler
      → Option ℕ
      → Option (Refcounter refs × List Delivery)
  send_data receivers rc d none cached user = none
  send_data receivers rc d (some struct) cached user =
      some (
        (decr refs (deliver receivers rc d struct cached user) d).0,
        deliveries cached user d struct,
      )

  -- The branch `default` of `winecord_gateway_dispatch`, by the entry of the table and the callbacks.
  unfoldable pub dispatch_data :
      Receivers
      → Refcounter refs
      → ℕ
      → Option EventData
      → Option CacheHandler
      → Option ℕ
      → Option (Refcounter refs × List Delivery)
  dispatch_data receivers rc d entry none none = some (rc, [])
  dispatch_data receivers rc d entry (some handler) user =
      send_data receivers rc d entry (some handler) user
  dispatch_data receivers rc d entry none (some f) = send_data receivers rc d entry none (some f)

  abbrev pub dispatch_event :
      Receivers
      → CallbackTables
      → Refcounter refs
      → ℕ
      → GatewayEvent
      → Option (Refcounter refs × List Delivery)
  dispatch_event receivers t rc d e =
      dispatch_data receivers rc d (entry_at dispatch_table (place e)) (t.cached (place e))
        (t.user.cbs (place e))

  module _ (chash : Chash Text ℕ same) (has_entries : chash.Carrier → Bool) where
    -- `winecord_gateway_dispatch`, with the content of the payload and the address of the message that
    -- the commands make.
    unfoldable pub gateway_dispatch :
        Receivers
        → User refs
        → Commands chash has_entries
        → CallbackTables
        → Refcounter refs
        → ℕ × Option Text × Text
        → ℕ
        → GatewayEvent
        → Option (Refcounter refs × List Delivery)
    gateway_dispatch receivers user cmds t rc (p, raw, content) d message_create =
        let (rc', performed) = try_perform chash has_entries refs user cmds rc p raw content in
        let sent = dispatch_event receivers t rc' d message_create in
        if performed then some (rc', []) else sent
    gateway_dispatch receivers user cmds t rc payload d nothing = some (rc, [])
    gateway_dispatch receivers user cmds t rc payload d e = dispatch_event receivers t rc d e
