-- ===== src/Monitor/Samples.antt =====
-- A small receiver on which the theorems of this folder are applied: a toy codec, two routes, and an
-- owner that never says whether it took an event.
use codex_monitor.Common.{
  ◌≤◌, ◌≡◌, ◌≢◌, refl, subst, String, Bool, true, false, Option, none, some, List, [], ◌∷◌, arith,
  All, ok, err, count_rows, any_row, select_rows, find_row, member, text_append, ◌⊎◌, eq_iff, ◌==◌,
}
use codex_monitor.Json.{
  Value, Fields, null, text, object, field, end, get_field, only_keys, is_name, text_option,
}
use codex_monitor.Monitor.State.{Event, Metadata, Db, Limits, Codec, empty_db}
use codex_monitor.Monitor.Intake.{
  Header, has_trace, validate, intake, admit, insert_event, ingest, new_event,
}
use codex_monitor.Monitor.Routes.{new_binding}
use codex_monitor.Monitor.Labels.{set_conversation_metadata, conversation_metadata}
use codex_monitor.Monitor.Labelled.{set-conversation_metadata}
use codex_monitor.Monitor.Dispatch.{
  Owner, raised, uncertain_submission, delivers, first_in_order, is_due, next_due, dispatch_once,
  submit_to,
}
use codex_monitor.Monitor.Machine.{
  Op, ingests, dispatches, enables, Setup, calls, step, run, all_calls,
}
use codex_monitor.Monitor.Recalled.{ingest-ingest_same, ingest-conflict}
use codex_monitor.Monitor.Once.{delivered_once}
use codex_monitor.Monitor.Replay.{Delivers}
use codex_monitor.Monitor.Budget.{IsBudgeted, run-IsBudgeted}
use codex_monitor.Monitor.Order.{IsNext, next_due_exact, dispatch_once_idle}
use codex_monitor.Monitor.Capacity.{IsWithinQueue, step-IsWithinQueue}
use codex_monitor.Monitor.Traces.{run_traced}
use codex_monitor.Monitor.Retired.{IsRetired, retired_dispatch, retired_ingest}

-- The toy codec keeps the trace of an envelope and nothing else.
abbrev mark : Option String → String
mark none = ""
mark (some t) = String.◌∷◌ "=" t

abbrev unmark : String → Option String
unmark String.[] = none
unmark (String.◌∷◌ c s) = some s

abbrev toy_compact : Value → Option String
toy_compact (object fs) = some (mark (text_option (get_field "trace_id" fs)))
toy_compact _ = none

unmark-mark : (o : Option String) → unmark (mark o) ≡ o
unmark-mark none = refl
unmark-mark (some t) = refl

pub toy_law :
    (fs : Fields) (s : String)
    → toy_compact (object fs) ≡ some s
    → unmark s ≡ text_option (get_field "trace_id" fs)
toy_law fs s e =
    let same : mark (text_option (get_field "trace_id" fs)) ≡ s = cc in
    subst (λ k. unmark k ≡ text_option (get_field "trace_id" fs)) same (unmark-mark _)

abbrev toy_codec : Codec
toy_codec = record { compact = toy_compact; trace_of = unmark; trace_of-compact = toy_law }

abbrev toy_limits : Limits
toy_limits = record {
  max_attempts = 5;
  max_age = 3600;
  max_pending = 1000;
  rate_limit = 120;
  trace_limit = 16;
}

abbrev pub toy_setup : Setup
toy_setup = record {
  codec = toy_codec;
  limits = toy_limits;
  urlsplit = λ s. none;
  blank = λ s. false;
}

-- It takes every event and never answers.
abbrev pub silent : Owner
silent = record {
  connect = λ endpoint. none;
  deliver = λ endpoint thread client body. raised uncertain_submission "timeout";
  reconcile = λ endpoint thread client. raised uncertain_submission "timeout";
  render = λ e. e.envelope;
}

abbrev envelope : Value
envelope = object (
    field "id" (text "e1")
      (field "source" (text "src") (field "type" (text "note") (field "data" null end))))

abbrev altered : Value
altered = object (
    field "id" (text "e1") (
      field "source" (text "src")
        (field "type" (text "note") (field "data" null (field "trace_id" (text "t") end)))))

abbrev pub header : Header
header = record { id = "e1"; source = "src"; kind = "note"; trace_id = none; encoded = "" }

abbrev pub routes : Db
routes = record empty_db {
  bindings =
      new_binding "build" "thread" "local" ("src" ∷ [])
      ∷ record (new_binding "old" "thread" "local" ("src" ∷ [])) { enabled = false; removed = true }
      ∷ [];
}

abbrev pub waiting : Db
waiting = record routes { events = new_event 1 "d1" 5 "build" header ∷ []; next_seq = 2 }

waiting_taken :
    ingest toy_codec toy_limits "d1" 5 "build" envelope routes
    ≡ ok (waiting, record { delivery_id = "d1"; duplicate = false })
unfolding ingest validate intake admit insert_event only_keys get_field is_name find_row any_row
    count_rows member text_append
waiting_taken = refl

-- The event is handed over with no answer, and its route is disabled.
abbrev since : List Op
since = dispatches silent 10 11 ∷ enables "build" false ∷ []

ingest-ingest_same_example :
    ingest toy_codec toy_limits "d2" 9 "build" envelope (run toy_setup waiting since)
    ≡ ok (run toy_setup waiting since, record { delivery_id = "d1"; duplicate = true })
ingest-ingest_same_example =
    ingest-ingest_same toy_setup "d1" "d2" 5 9 "build" envelope routes waiting _ since waiting_taken

abbrev altered_header : Header
altered_header = record {
  id = "e1";
  source = "src";
  kind = "note";
  trace_id = some "t";
  encoded = "=t";
}

envelope_valid : validate toy_codec envelope ≡ ok header
unfolding validate only_keys get_field is_name member
envelope_valid = refl

altered_valid : validate toy_codec altered ≡ ok altered_header
unfolding validate only_keys get_field is_name member
altered_valid = refl

contents_differ : ◌≢◌ {A = String} "=t" ""
contents_differ = ground (arith, eq_iff "=t" "")

ingest-conflict_example :
    ingest toy_codec toy_limits "d2" 9 "build" altered (run toy_setup waiting since)
    ≡ err 409 "event ID already used for different content"
ingest-conflict_example =
    ingest-conflict toy_setup "d1" "d2" 5 9 "build" envelope altered header altered_header routes
      waiting _ since waiting_taken envelope_valid altered_valid refl refl contents_differ

first_call : calls toy_setup waiting (dispatches silent 10 11) ≡ delivers "d1" ∷ []
unfolding calls dispatch_once submit_to next_due first_in_order select_rows any_row find_row
first_call = refl

delivered_once_example :
    All
      (λ c. ¬ Delivers "d1" c)
      (all_calls toy_setup
        (step toy_setup waiting (dispatches silent 10 11))
        (dispatches silent 40_000_000 40_000_001 ∷ enables "build" false ∷ []))
delivered_once_example =
    delivered_once toy_setup waiting (dispatches silent 10 11)
      (dispatches silent 40_000_000 40_000_001 ∷ enables "build" false ∷ []) "d1" (tt, tt)
      (λ endpoint thread client body. refl) first_call ((λ r. r), ((λ r. r), tt))

abbrev pub waiting_event : Event
waiting_event = new_event 1 "d1" 5 "build" header

pub waiting_due : next_due 10 waiting ≡ some waiting_event
unfolding next_due first_in_order select_rows any_row
waiting_due = refl

next_due_exact_example : IsNext 10 waiting waiting_event
next_due_exact_example = next_due_exact 10 waiting waiting_event waiting_due

dispatch_once_idle_example :
    ((dispatch_once silent toy_limits 10 11 routes).1 ≡ false
      × All (λ e. is_due 10 routes e ≡ false) []
      × (dispatch_once silent toy_limits 10 11 routes ≡ (routes, false, [])))
    ⊎ ((dispatch_once silent toy_limits 10 11 routes).1 ≡ true
        × ((row : Event) × (next_due 10 routes ≡ some row)))
dispatch_once_idle_example = dispatch_once_idle silent toy_limits 10 11 routes

run-IsBudgeted_example :
    All (IsBudgeted toy_limits) (run toy_setup waiting (dispatches silent 10 11 ∷ [])).events
run-IsBudgeted_example =
    run-IsBudgeted toy_setup waiting (dispatches silent 10 11 ∷ []) (omega arith) (tt, tt)
      (omega arith)

waiting_within : IsWithinQueue toy_limits waiting
unfolding count_rows
waiting_within b = ground arith

step-IsWithinQueue_example :
    IsWithinQueue toy_limits (step toy_setup waiting (dispatches silent 10 11))
step-IsWithinQueue_example =
    step-IsWithinQueue toy_setup waiting (dispatches silent 10 11) (tt, tt) waiting_within (λ r. r)

run_traced_example :
    count_rows
      (has_trace toy_codec "t")
      (run toy_setup waiting (ingests "d2" 9 "build" altered ∷ [])).events
    ≤ 16
unfolding count_rows
run_traced_example =
    run_traced toy_setup waiting (ingests "d2" 9 "build" altered ∷ []) "t" refl (omega arith)

old-IsRetired : IsRetired "old" routes.bindings
unfolding any_row
old-IsRetired = record { exists = refl; removed = ((λ h. cc), ((λ h. refl), tt)) }

run_idle : next_due 10 (run toy_setup waiting []) ≡ some waiting_event
unfolding run next_due first_in_order select_rows any_row
run_idle = refl

retired_dispatch_example : (waiting_event.binding == "old") ≡ false
retired_dispatch_example =
    retired_dispatch toy_setup waiting [] "old" 10 waiting_event old-IsRetired run_idle

-- The removed route of before, which holds the event from then.
abbrev held : Db
held = record routes { events = new_event 1 "d1" 5 "old" header ∷ []; next_seq = 2 }

known_to_old :
    ingest toy_codec toy_limits "d2" 9 "old" envelope (run toy_setup held [])
    ≡ ok (held, record { delivery_id = "d1"; duplicate = true })
unfolding ingest validate intake admit only_keys get_field is_name find_row any_row member run
known_to_old = refl

retired_ingest_example : (◌≡◌ {A = Bool} true true) × (held ≡ run toy_setup held [])
retired_ingest_example =
    retired_ingest toy_setup held held [] "old" "d2" 9 envelope
      (record { delivery_id = "d1"; duplicate = true }) old-IsRetired known_to_old

abbrev label : Metadata
label = record { thread = "thread"; project = "Ungrouped"; display_name = "Build" }

abbrev labelled : Db
labelled = record routes { metadata = label ∷ [] }

label_set :
    set_conversation_metadata (λ s. s) "thread" none (some "Build") routes ≡ ok (labelled, label)
unfolding set_conversation_metadata is_name codex_monitor.Endpoint.any_code any_row
label_set = refl

set-conversation_metadata_example : conversation_metadata (some "thread") labelled ≡ ok (label ∷ [])
set-conversation_metadata_example =
    set-conversation_metadata (λ s. s) "thread" none (some "Build") routes labelled label tt
      label_set
