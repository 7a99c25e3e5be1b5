-- ===== src/Replies/Samples.antt =====
-- A small outbox of replies on which the theorems of this folder are applied.
use codex_monitor.Common.{
  ◌≤◌, ◌≡◌, refl, String, Bool, true, false, List, [], ◌∷◌, arith, ok, find_row, any_row,
  count_rows, ◌==◌,
}
use codex_monitor.Json.{is_name}
use codex_monitor.Replies.Outbox.{
  StoredReply, Parent, new_reply, repeated_or_added, unacknowledged, add, Op, adds, acks, run,
}
use codex_monitor.Replies.Repeat.{add-add_same}
use codex_monitor.Replies.Lasting.{IsKept, run-IsKept, run_within}

abbrev never_blank : String → Bool
never_blank s = false

abbrev parent : Parent
parent = record { id = "d"; source = "s"; binding = "b"; event_id = "e" }

abbrev first_reply : StoredReply
first_reply = new_reply "a" 5 parent "k" "done"

added_first :
    add never_blank 1 "a" 5 parent "k" "done" []
    ≡ ok (first_reply ∷ [], record { reply_id = "a"; duplicate = false })
unfolding add repeated_or_added is_name find_row any_row count_rows
added_first = refl

-- The reply is acknowledged, and another one fills the outbox.
abbrev since : List Op
since = acks 6 "s" "a" ∷ adds "b" 7 parent "k2" "more" ∷ []

add-add_same_example :
    add never_blank 1 "a2" 9 parent "k" "done" (run never_blank 1 (first_reply ∷ []) since)
    ≡ ok (run never_blank 1 (first_reply ∷ []) since, record { reply_id = "a"; duplicate = true })
add-add_same_example =
    add-add_same never_blank 1 "a" "a2" 5 9 parent "k" "done" [] (first_reply ∷ [])
      (record { reply_id = "a"; duplicate = false }) since added_first

first-IsKept : IsKept first_reply (first_reply ∷ [])
unfolding find_row new_reply
first-IsKept = refl

other_reply : ("z" == first_reply.id) ≡ false
unfolding new_reply
other_reply = refl

run-IsKept_example :
    IsKept first_reply
      (run never_blank 1 (first_reply ∷ []) (adds "a2" 9 parent "k2" "more" ∷ acks 9 "s" "z" ∷ []))
run-IsKept_example =
    run-IsKept never_blank 1 (first_reply ∷ [])
      (adds "a2" 9 parent "k2" "more" ∷ acks 9 "s" "z" ∷ []) first_reply (tt, (other_reply, tt))
      first-IsKept

first_within : count_rows unacknowledged (first_reply ∷ []) ≤ 1
unfolding count_rows new_reply
first_within = omega arith

run_within_example :
    count_rows unacknowledged
      (run never_blank 1 (first_reply ∷ []) (adds "a2" 9 parent "k2" "more" ∷ []))
    ≤ 1
run_within_example =
    run_within never_blank 1 (first_reply ∷ []) (adds "a2" 9 parent "k2" "more" ∷ []) first_within
