-- ===== src/Watch/Samples.antt =====
-- A watcher of Boolean samples, on which the theorems of this folder are applied.
use codex_monitor.Common.{◌≡◌, refl, Bool, true, false, not, none, some, List, [], ◌∷◌}
use codex_monitor.Watch.{Emission, Checkpoint, check, Round, watch, deliveries}
use codex_monitor.Watch.Chain.{IsChain, PendingFits, watch-IsChain, check-retries}

abbrev same_bool : Bool → Bool → Bool
same_bool true b = b
same_bool false b = not b

abbrev refuses : Emission Bool → Bool
refuses p = false

abbrev takes : Emission Bool → Bool
takes p = true

abbrev quiet : Checkpoint Bool
quiet = record { last = false; pending = none }

abbrev rise : Emission Bool
rise = record { id = "a"; previous = false; current = true }

abbrev rounds : List (Round Bool)
rounds =
    record { fresh = "a"; sample = true; emit = refuses }
    ∷ record { fresh = "b"; sample = false; emit = takes }
    ∷ []

watch-IsChain_example :
    (end : Checkpoint Bool) × (watch same_bool (some quiet) rounds ≡ some end)
    × IsChain false (deliveries same_bool (some quiet) rounds) end.last
    × PendingFits end.last end.pending
watch-IsChain_example = watch-IsChain same_bool quiet rounds tt

rise_failed : (check same_bool refuses "a" true (some quiet)).failed ≡ some rise
unfolding check
rise_failed = refl

check-retries_example :
    (rest : List (Emission Bool)) × ((check same_bool takes "b" false
        (check same_bool refuses "a" true (some quiet)).file).taken
      ≡ rise ∷ rest)
check-retries_example =
    check-retries same_bool refuses takes "a" "b" true false quiet rise rise_failed refl
