-- ===== src/Events/Dispatch/Typed.antt =====
-- winecord-gateway_dispatch.c: the callbacks that are set take the structs of the table.
use wineberry_discord.Prelude.{
  ℕ, ◌≡◌, ◌==◌, Bool, true, false, List, [], ◌∷◌, none, some, arith, refl, ==_iff, Bool-cases, inl,
  inr,
}
use wineberry_discord.Rest.{same}
use wineberry_discord.Gateway.{
  GatewayEvent, message_create, ready, guild_create, guild_update, guild_delete, message_update,
  message_delete,
}
use wineberry_discord.Events.{Intent, guilds, add_intents, place}
use wineberry_discord.Events.Setters.Calls.{event_of, call_setter}
use wineberry_discord.Events.Setters.History.{SetterCall, call_setter-cbs}
use wineberry_discord.Events.Dispatch.{
  EventData, dispatch_table, entry_at, CacheHandler, on_ready, on_guild_create, on_guild_update,
  on_guild_delete, on_message_create, on_message_update, on_message_delete, handler_takes,
  CallbackTables, enable_cbs, assign_cached, enable_guilds, enable_messages,
}
use wineberry_discord.Events.Dispatch.Parameters.{parameter, entry_at-event_of}

-- A call that sets callbacks: a setter, or `winecord_cache_enable` with its options.
pub data TableCall : Type 0 where
  sets : SetterCall → TableCall
  enables : Bool → Bool → Bool → TableCall

abbrev apply : TableCall → CallbackTables → CallbackTables
apply (sets c) t = record t { user = call_setter c.setter c.connected c.cb t.user }
apply (enables connected with_guilds with_messages) t =
    enable_cbs connected with_guilds with_messages t

unfoldable pub run_calls : List TableCall → CallbackTables → CallbackTables
run_calls [] t = t
run_calls (c ∷ cs) t = run_calls cs (apply c t)

abbrev pub no_callbacks : CallbackTables
no_callbacks = record {
  cached = λ i. none;
  user = record { cbs = λ i. none; intents = λ i. false };
}

-- What the C compiler checks of a call: the callback takes the struct of the setter.
abbrev pub IsChecked : (ℕ → EventData) → TableCall → Type 0
IsChecked takes (sets c) = (f : ℕ) → c.cb ≡ some f → takes f ≡ parameter c.setter
IsChecked takes (enables connected with_guilds with_messages) = Unit

abbrev pub AreChecked : (ℕ → EventData) → List TableCall → Type 0
AreChecked takes [] = Unit
AreChecked takes (c ∷ cs) = IsChecked takes c × AreChecked takes cs

-- The entries of the table are of the structs that the callbacks take.
pub record IsTyped (takes : ℕ → EventData) (t : CallbackTables) : Type 0 where
  pub cached_typed :
      (i : ℕ) (h : CacheHandler)
      → t.cached i ≡ some h
      → entry_at dispatch_table i ≡ some (handler_takes h)
  pub user_typed : (i f : ℕ) → t.user.cbs i ≡ some f → entry_at dispatch_table i ≡ some (takes f)

module _ (takes : ℕ → EventData) where
  assign_cached-IsTyped :
      (e : GatewayEvent) (h : CacheHandler) (t : CallbackTables)
      → entry_at dispatch_table (place e) ≡ some (handler_takes h)
      → IsTyped takes t
      → IsTyped takes (assign_cached e h t)
  assign_cached-IsTyped e h t entry typed = record {
    cached_typed = λ i h' found. elim (Bool-cases (i == place e)) [
      | inl same ↦ ground (arith, same, found, entry, ==_iff i (place e))
      | inr other ↦ typed.cached_typed i h' (rw other at found)
    ];
    user_typed = typed.user_typed;
  }

  add_intents-IsTyped :
      (connected : Bool) (code : List Intent) (t : CallbackTables)
      → IsTyped takes t
      → IsTyped takes (record t { user = add_intents connected code t.user })
  add_intents-IsTyped true code t typed = record {
    cached_typed = typed.cached_typed;
    user_typed = typed.user_typed;
  }
  add_intents-IsTyped false code t typed = record {
    cached_typed = typed.cached_typed;
    user_typed = typed.user_typed;
  }

  enable_guilds-IsTyped :
      (connected : Bool) (t : CallbackTables)
      → IsTyped takes t
      → IsTyped takes (enable_guilds connected t)
  unfolding dispatch_table
  enable_guilds-IsTyped connected t typed =
      assign_cached-IsTyped guild_delete on_guild_delete _ refl (
        assign_cached-IsTyped guild_update on_guild_update _ refl (
          assign_cached-IsTyped guild_create on_guild_create _ refl
            (add_intents-IsTyped connected (guilds ∷ []) t typed)))

  enable_messages-IsTyped :
      (t : CallbackTables) → IsTyped takes t → IsTyped takes (enable_messages t)
  unfolding dispatch_table
  enable_messages-IsTyped t typed = assign_cached-IsTyped message_delete on_message_delete _ refl (
      assign_cached-IsTyped message_update on_message_update _ refl
        (assign_cached-IsTyped message_create on_message_create _ refl typed))

  enable_cbs-IsTyped :
      (connected with_guilds with_messages : Bool) (t : CallbackTables)
      → IsTyped takes t
      → IsTyped takes (enable_cbs connected with_guilds with_messages t)
  unfolding dispatch_table enable_cbs
  enable_cbs-IsTyped connected true true t typed =
      enable_messages-IsTyped _
        (enable_guilds-IsTyped connected _ (assign_cached-IsTyped ready on_ready t refl typed))
  enable_cbs-IsTyped connected true false t typed =
      enable_guilds-IsTyped connected _ (assign_cached-IsTyped ready on_ready t refl typed)
  enable_cbs-IsTyped connected false true t typed =
      enable_messages-IsTyped _ (assign_cached-IsTyped ready on_ready t refl typed)
  enable_cbs-IsTyped connected false false t typed =
      assign_cached-IsTyped ready on_ready t refl typed

  apply-IsTyped :
      (c : TableCall) (t : CallbackTables)
      → IsChecked takes c
      → IsTyped takes t
      → IsTyped takes (apply c t)
  apply-IsTyped (enables connected with_guilds with_messages) t checked typed =
      enable_cbs-IsTyped connected with_guilds with_messages t typed
  apply-IsTyped (sets c) t checked typed = record {
    cached_typed = typed.cached_typed;
    user_typed = λ i f found.
        let before = call_setter-cbs c.setter c.connected c.cb t.user i in
        elim (Bool-cases (i == place (event_of c.setter))) [
          | inl same ↦
              let given : c.cb ≡ some f = ground (arith, same, found, before) in
              rw ((==_iff i (place (event_of c.setter))).0 same, checked f given)
                (entry_at-event_of c.setter)
          | inr other ↦ typed.user_typed i f (ground (arith, other, found, before))
        ];
  }

  pub run_calls-IsTyped :
      (cs : List TableCall) (t : CallbackTables)
      → AreChecked takes cs
      → IsTyped takes t
      → IsTyped takes (run_calls cs t)
  unfolding run_calls
  run_calls-IsTyped [] t checked typed = typed
  run_calls-IsTyped (c ∷ cs) t (checked, rest) typed =
      run_calls-IsTyped cs (apply c t) rest (apply-IsTyped c t checked typed)
