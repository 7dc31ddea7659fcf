-- ===== src/Events/Tests.antt =====
-- Setters of the callbacks of events, and the theorem about them at some calls.
use wineberry_discord.Prelude.{◌≡◌, true, false, List, [], ◌∷◌, none, some, refl}
use wineberry_discord.Gateway.{guild_create}
use wineberry_discord.Events.{Handlers, place, bit, guilds}
use wineberry_discord.Events.Setters.Calls.{on_guild_create, on_guild_delete}
use wineberry_discord.Events.Setters.History.{SetterCall, run_setters, run_setters-handlers}

abbrev unset : Handlers
unset = record { cbs = λ i. none; intents = λ i. false }

abbrev calls : List SetterCall
calls =
    record { setter = on_guild_create; connected = true; cb = some 1 }
    ∷ record { setter = on_guild_create; connected = true; cb = some 2 }
    ∷ record { setter = on_guild_delete; connected = true; cb = some 3 }
    ∷ []

-- A callback that is set while the client is connected is there, but its intent is not.
no_intent : (run_setters calls unset).intents (bit guilds) ≡ false
unfolding run_setters
no_intent = refl

run_setters-handlers_example :
    ((run_setters calls unset).cbs (place guild_create) ≡ some 2)
    × ((run_setters calls unset).intents (bit guilds) ≡ false)
run_setters-handlers_example = run_setters-handlers calls unset guild_create guilds
