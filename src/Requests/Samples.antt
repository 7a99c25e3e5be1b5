-- ===== src/Requests/Samples.antt =====
-- A small store on which the theorems of this folder are applied.
use codex_monitor.Common.{
  ◌≤◌, ◌≡◌, ◌≢◌, refl, true, false, none, some, List, [], ◌∷◌, arith, All, ok, err, find_row,
  any_row, count_rows, update_rows, select_rows, length,
}
use codex_monitor.Json.{object, end, is_name}
use codex_monitor.Requests.State.{
  received, cancelled, expired, Request, Notification, accepted, Store, Capacity, Encoding, at_key,
  state_of, json_object, optional_json_object, decode_object,
}
use codex_monitor.Requests.Updates.{
  Reply, record_of, allowed, notification_capacity, insert_notification, new_notification, advance,
  advance_to, update_known, noted, moved, new_update, transition_db,
}
use codex_monitor.Requests.Lifecycle.{
  Draft, draft, new_request, create_in, create, transition_row, transition,
}
use codex_monitor.Requests.Outbox.{insert_due, sort_due, pending_notifications}
use codex_monitor.Requests.Machine.{Op, creates, transitions, expires, fails, Setup, run}
use codex_monitor.Requests.Reserved.{IsStored, IsReserved}
use codex_monitor.Requests.Room.{run-IsReserved, terminal_never_full}
use codex_monitor.Requests.Lasting.{run_final, IsPosted, run_delivered}
use codex_monitor.Requests.Resent.{transition-transition_same}
use codex_monitor.Requests.Recreate.{create-create_same}
use codex_monitor.Requests.Queries.{listed_in, from_start}
use codex_monitor.Requests.Paging.{read_all}
use codex_monitor.Requests.Pages.{replies_of, read_all-replies_of}
use codex_monitor.Requests.Delivery.{IsReady, IsSorted, pending_notifications-IsReady}

abbrev toy_encoding : Encoding
toy_encoding = record { dumps = λ v. some "{}"; loads = λ s. some (object end) }

abbrev pub toy_capacity : Capacity
toy_capacity = record {
  max_requests = 10;
  max_updates_per_request = 4;
  max_notifications = 2;
  max_payload_bytes = 100;
  max_update_bytes = 100;
}

abbrev toy_setup : Setup
toy_setup = record { encoding = toy_encoding; capacity = toy_capacity; blank = λ s. false }

abbrev empty_store : Store
empty_store = record { requests = []; updates = []; notifications = [] }

abbrev request : Request
request = record {
  request_id = "r";
  conversation_id = "c";
  source = "s";
  request_key = "k";
  original_delivery_id = "d";
  original_binding = "b";
  payload = "{}";
  state = received;
  revision = 0;
  expires_at = some 50;
  expires_in = none;
  created = 5;
  updated = 5;
}

abbrev opened : Store
opened = record empty_store { requests = request ∷ [] }

abbrev finished : Request
finished = record request { state = expired; revision = 1; updated = 60 }

abbrev pub closed : Store
closed = record empty_store { requests = finished ∷ [] }

abbrev pub sent : Notification
sent = record {
  notification_id = "n";
  request_id = "r";
  update_id = "u";
  revision = 1;
  original_binding = "b";
  source = "s";
  event_id = "e";
  envelope = "{}";
  state = accepted;
  attempts = 0;
  next_at = 60;
  delivery_id = some "d2";
  error = none;
  created = 60;
  updated = 61;
}

abbrev posted : Store
posted = record closed { notifications = sent ∷ [] }

empty-IsReserved : IsReserved toy_capacity empty_store
unfolding count_rows
empty-IsReserved = record { unique = tt; within = omega arith }

run-IsReserved_example : IsReserved toy_capacity (
    run toy_setup empty_store
      (creates "r" 5 "c" "s" "k" "d" "b" (object end) (some 50) none ∷ expires 60 10 ∷ []))
run-IsReserved_example =
    run-IsReserved toy_setup empty_store
      (creates "r" 5 "c" "s" "k" "d" "b" (object end) (some 50) none ∷ expires 60 10 ∷ [])
      empty-IsReserved

opened-IsReserved : IsReserved toy_capacity opened
unfolding count_rows
opened-IsReserved = record { unique = (tt, tt); within = omega arith }

still_open : IsStored request (run toy_setup opened [])
unfolding run find_row
still_open = refl

terminal_never_full_example :
    advance toy_encoding toy_capacity request "u" expired none 60 (run toy_setup opened [])
    ≢ err 429 "request notification capacity reached"
terminal_never_full_example =
    terminal_never_full toy_setup opened [] request "u" expired none 60
      "request notification capacity reached" opened-IsReserved still_open refl refl

finished-IsStored : IsStored finished closed
unfolding find_row
finished-IsStored = refl

run_final_example :
    IsStored finished
      (run toy_setup closed (transitions 70 "c" "s" "k" "u2" "completed" 1 none ∷ []))
run_final_example =
    run_final toy_setup closed (transitions 70 "c" "s" "k" "u2" "completed" 1 none ∷ []) finished
      (tt, tt) refl finished-IsStored

sent-posted : IsPosted sent posted
unfolding find_row
sent-posted = refl

run_delivered_example : IsPosted sent (run toy_setup posted (fails 70 "n" "late" none ∷ []))
run_delivered_example =
    run_delivered toy_setup posted (fails 70 "n" "late" none ∷ []) sent (tt, tt) refl sent-posted

abbrev new_draft : Draft
new_draft = draft 5 "c" "s" "k" "d" "b" "{}" none (some 45)

abbrev made : Store
made = record empty_store { requests = new_request "r" 5 new_draft ∷ [] }

abbrev made_reply : Reply
made_reply = record {
  request = new_request "r" 5 new_draft;
  payload = object end;
  duplicate = false;
}

made_first :
    create toy_encoding toy_capacity "r" 5 "c" "s" "k" "d" "b"
      (object end)
      none
      (some 45)
      empty_store
    ≡ ok (made, made_reply)
unfolding create create_in json_object record_of decode_object is_name find_row count_rows any_row
made_first = refl

-- The request is cancelled, and another one is made.
abbrev since : List Op
since =
    transitions 20 "c" "s" "k" "u" "cancelled" 0 none
    ∷ creates "r9" 21 "c" "s" "k9" "d" "b" (object end) none none
    ∷ []

create-create_same_example :
    (find_row (at_key "c" "s" "k") made.requests ≡ some made_reply.request)
    × ((r : Request) × (find_row (at_key "c" "s" "k") (run toy_setup made since).requests ≡ some r)
        × (r.request_id ≡ "r")
        × (create toy_encoding toy_capacity "r2" 30 "c" "s" "k" "d" "b"
              (object end)
              none
              (some 45)
              (run toy_setup made since)
            ≡ ok (
              run toy_setup made since,
              record { request = r; payload = object end; duplicate = true },
            )))
unfolding new_request
create-create_same_example =
    create-create_same toy_setup "r" "r2" 5 30 "c" "s" "k" "d" "b" (object end) none (some 45)
      empty_store made made_reply since tt made_first

abbrev cancelled_request : Request
cancelled_request = moved cancelled 9 request

abbrev cancelled_store : Store
cancelled_store = record {
  requests = cancelled_request ∷ [];
  updates = new_update request "u" cancelled none 9 ∷ [];
  notifications = new_notification cancelled_request "u" "{}" 9 ∷ [];
}

abbrev cancelled_reply : Reply
cancelled_reply = record { request = cancelled_request; payload = object end; duplicate = false }

cancelled_first :
    transition toy_encoding toy_capacity 9 "c" "s" "k" "u" "cancelled" 0 none opened
    ≡ ok (cancelled_store, cancelled_reply)
unfolding transition transition_row transition_db update_known advance_to advance allowed
    notification_capacity insert_notification noted record_of decode_object is_name find_row
    count_rows any_row update_rows state_of optional_json_object
cancelled_first = refl

transition-transition_same_example :
    (find_row (at_key "c" "s" "k") cancelled_store.requests ≡ some cancelled_request)
    × ((r : Request) × (find_row (at_key "c" "s" "k") (run toy_setup cancelled_store since).requests
          ≡ some r)
        × (r.request_id ≡ "r")
        × (transition toy_encoding toy_capacity 30 "c" "s" "k" "u" "cancelled" 0 none
              (run toy_setup cancelled_store since)
            ≡ ok (
              run toy_setup cancelled_store since,
              record { request = r; payload = object end; duplicate = true },
            )))
transition-transition_same_example =
    transition-transition_same toy_setup 9 30 "c" "s" "k" "u" "cancelled" 0 none opened
      cancelled_store cancelled_reply since (tt, tt) cancelled_first

cancelled_due : pending_notifications 10 9 cancelled_store ≡ ok cancelled_store.notifications
unfolding pending_notifications sort_due insert_due select_rows any_row new_notification
cancelled_due = refl

pending_notifications-IsReady_example :
    All (IsReady 9 cancelled_store) cancelled_store.notifications
    × IsSorted cancelled_store.notifications
    × (length cancelled_store.notifications ≤ 10)
pending_notifications-IsReady_example =
    pending_notifications-IsReady 10 9 cancelled_store cancelled_store.notifications cancelled_due

abbrev three : Store
three = record empty_store {
  requests =
      request
      ∷ record request { request_id = "r2"; request_key = "k2"; conversation_id = "other" }
      ∷ record request { request_id = "r3"; request_key = "k3" }
      ∷ [];
}

read_all-replies_of_example :
    read_all toy_encoding "c" none 1 three 4 from_start
    ≡ replies_of toy_encoding (select_rows (listed_in "c" none) three.requests)
unfolding is_name
read_all-replies_of_example =
    read_all-replies_of toy_encoding "c" none 1 three 4 refl refl (omega arith) (omega arith)
      (omega arith)
