-- ===== src/Commands/Tests.antt =====
-- Runs of commands, and the theorems about them at these.
use wineberry_discord.Prelude.{ℕ, ◌≡◌, refl, arith, true, false, [], ◌∷◌, none, some, Bool}
use wineberry_discord.Chash.{assoc_table, is_some}
use wineberry_discord.Chash.Texts.{text_table}
use wineberry_discord.Rest.{Text}
use wineberry_discord.Refcount.{RefValue, Refcounter, claim, claims, step, refvalue_find}
use wineberry_discord.Refcount.Entry.{step-ActsAs}
use wineberry_discord.Refcount.Visits.{Keeps}
use wineberry_discord.Commands.{User, Commands, performs, try_match, try_perform, append}
use wineberry_discord.Commands.Words.{try_match-append}
use wineberry_discord.Commands.Release.{IsDone, try_perform-IsDone}

abbrev filled : text_table.Carrier → Bool
filled [] = false
filled (entry ∷ t) = true

filled_lem :
    (t : text_table.Carrier) (k : Text) → is_some (text_table.lookup t k) ≡ true → filled t ≡ true
filled_lem [] k h = cc
filled_lem (entry ∷ t) k h = refl

-- The prefix "!", the fallback 4, and no command.
abbrev bare : Commands text_table filled
bare = record { table = []; fallback = some 4; prefix = 33 ∷ [] }

-- "!ab  c"
try_match-append_example :
    try_match text_table filled
      (append text_table filled bare (97 ∷ 98 ∷ []) 7)
      (some (33 ∷ 97 ∷ 98 ∷ 32 ∷ 32 ∷ 99 ∷ 34 ∷ []))
      (33 ∷ 97 ∷ 98 ∷ 32 ∷ 32 ∷ 99 ∷ [])
    ≡ performs 7 (99 ∷ [])
try_match-append_example =
    try_match-append text_table filled bare (97 ∷ 98 ∷ []) 7 (32 ∷ 32 ∷ 99 ∷ [])
      (97 ∷ 98 ∷ 32 ∷ 32 ∷ 99 ∷ 34 ∷ []) filled_lem refl refl refl

-- The same command, and the prefix "\": a content that begins with a quote has a backslash before it in
-- the JSON, and is taken for a command.
abbrev backslash : Commands text_table filled
backslash = record { table = (97 ∷ [], 7) ∷ []; fallback = none; prefix = 92 ∷ [] }

run_backslash :
    try_match text_table filled backslash (some (92 ∷ 34 ∷ 97 ∷ [])) (34 ∷ 97 ∷ []) ≡ performs 7 []
unfolding try_match
run_backslash = refl

abbrev none_held : Refcounter (assoc_table RefValue)
none_held = record { refs = []; effects = [] }

none_held_lem : refvalue_find (assoc_table RefValue) none_held 50 ≡ none
unfolding refvalue_find
none_held_lem = refl

-- A callback that claims the message keeps one visit.
abbrev claiming : User (assoc_table RefValue)
claiming = record { effect = λ f text p rc. (claim (assoc_table RefValue) rc p).0 }

claim-Keeps :
    (p : ℕ) → Keeps (assoc_table RefValue) (λ rc. (claim (assoc_table RefValue) rc p).0) p 1 1
unfolding step
claim-Keeps p rc v e le =
    let (finds, code, effects) = step-ActsAs (assoc_table RefValue) rc (claims p) in
    ground (arith, e, le, finds p)

try_perform-IsDone_example :
    let r =
      try_perform text_table filled
        (assoc_table RefValue)
        claiming
        backslash
        none_held
        50
        (some (92 ∷ 92 ∷ 97 ∷ []))
        (92 ∷ 97 ∷ []) in
    IsDone (assoc_table RefValue) claiming none_held 50 1 1 (performs 7 []) r.0 × (r.1 ≡ true)
unfolding try_match
try_perform-IsDone_example =
    try_perform-IsDone (assoc_table RefValue) text_table filled claiming backslash none_held 50
      (some (92 ∷ 92 ∷ 97 ∷ [])) (92 ∷ 97 ∷ []) 1 1 none_held_lem (λ f text. claim-Keeps 50)
      (omega arith) (omega arith)
