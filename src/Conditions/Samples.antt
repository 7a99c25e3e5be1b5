-- ===== src/Conditions/Samples.antt =====
-- A policy of two seconds on Boolean samples, on which the theorems of this folder are applied.
use codex_monitor.Common.{
  ◌+◌, ◌≤◌, ◌≡◌, refl, Bool, true, false, not, none, some, List, [], ◌∷◌, map, arith,
}
use codex_monitor.Conditions.{
  Candidate, Policy, waiting, selected, select, Step, observes, restarts, follow, after_steps,
}
use codex_monitor.Conditions.Window.{IsWindow, selected_stable}
use codex_monitor.Conditions.Restart.{Poll, answers, judged, select_after_restart}

abbrev same_bool : Bool → Bool → Bool
same_bool true b = b
same_bool false b = not b

abbrev earlier_steps : List (Step Bool)
earlier_steps = observes 11 0 true (some false) ∷ observes 10 0 true (some false) ∷ []

stable_at_last :
    (select same_bool 2 12 0 true (some false) (after_steps same_bool 2 none earlier_steps)).1
    ≡ selected true
unfolding select follow after_steps
stable_at_last = refl

selected_stable_example :
    (true ≡ true)
    × ((c : Candidate Bool) × IsWindow same_bool c (observes 12 0 true (some false) ∷ earlier_steps)
        × (c.last_seen ≡ 12)
        × (c.first_seen + 2 ≤ 12))
selected_stable_example =
    selected_stable same_bool 2 none earlier_steps 12 0 true false true stable_at_last

abbrev held : Candidate Bool
held = record { sample = true; first_seen = 3; last_seen = 9; pause_epoch = 0 }

abbrev holding : Policy Bool
holding = record { candidate = some held; observing = true }

abbrev polls : List (Poll Bool)
polls =
    record { at = 21; sample = true; baseline = false }
    ∷ record { at = 22; sample = true; baseline = false }
    ∷ record { at = 23; sample = true; baseline = false }
    ∷ []

select_after_restart_example :
    answers same_bool 2 0
      (follow same_bool 2 holding restarts)
      (record { at = 20; sample = true; baseline = false } ∷ polls)
    ≡ waiting ∷ map (judged same_bool 2 20) polls
select_after_restart_example =
    select_after_restart same_bool 2 holding held 0
      (record { at = 20; sample = true; baseline = false }) polls refl (omega arith)
      (
        omega arith,
        refl,
        refl,
        (omega arith, refl, refl, (omega arith, refl, refl, (omega arith, refl, refl, tt))),
      )
