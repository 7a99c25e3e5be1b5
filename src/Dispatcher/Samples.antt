-- ===== src/Dispatcher/Samples.antt =====
-- A process with one route and one notification, on which the theorems of this folder are applied.
use codex_monitor.Common.{
  arith, ◌≡◌, refl, true, false, none, some, List, [], ◌∷◌, All, ok, find_row, any_row, count_rows,
  member,
}
use codex_monitor.Json.{Value, object, field, end, text, is_name, get_field, only_keys}
use codex_monitor.Monitor.Intake.{Receipt, named, ingest, validate, intake, admit, insert_event}
use codex_monitor.Monitor.Samples.{toy_setup, routes, silent}
use codex_monitor.Monitor.Machine.{dispatches}
use codex_monitor.Requests.State.{Notification, pending, with_notification_id}
use codex_monitor.Requests.Samples.{toy_capacity, sent, closed}
use codex_monitor.Requests.Outbox.{set_notification, delivered}
use codex_monitor.Dispatcher.{
  World, Outside, Round, died, returned, relay, check_original, paused, at_monitor,
}
use codex_monitor.Dispatcher.Machine.{Op, pumps, others, step, run}
use codex_monitor.Dispatcher.Sound.{IsSound}
use codex_monitor.Dispatcher.Run.{run-IsSound}
use codex_monitor.Dispatcher.Resumed.{relay_resumed}

abbrev notice : Value
notice = object (
    field "id" (text "e") (
      field "source" (text "src") (
        field "type" (text "request.status.changed")
          (field "data" (object (field "conversation_id" (text "thread") end)) end))))

abbrev outside : Outside
outside = record {
  receiver = toy_setup;
  store = record {
    encoding = record { dumps = λ v. some "{}"; loads = λ s. some notice };
    capacity = toy_capacity;
    blank = λ s. false;
  };
  excerpt = λ s. s;
}

abbrev item : Notification
item = record sent {
  original_binding = "build";
  source = "src";
  state = pending;
  delivery_id = none;
}

abbrev world : World
world = record { monitor = routes; requests = record closed { notifications = item ∷ [] } }

abbrev deadly : Round
deadly = record { meanwhile = []; fresh = "d1"; taken_at = 70; written_at = 71; survives = false }

abbrev lively : Round
lively = record deadly { fresh = "d2"; survives = true }

abbrev after_death : World
after_death = (relay outside deadly routes.bindings (item, notice) world).0

death : relay outside deadly routes.bindings (item, notice) world ≡ (after_death, died)
unfolding relay find_row member get_field ingest validate only_keys is_name intake admit count_rows
    any_row
death = refl

names : All (λ e. is_name e.id ≡ true) after_death.monitor.events
unfolding relay find_row member get_field ingest validate only_keys is_name intake admit count_rows
    any_row insert_event
names = (refl, tt)

-- Another thread hands the event to its owner, which does not answer.
abbrev since : List Op
since = others (at_monitor (dispatches silent 80 81)) ∷ []

found :
    find_row
      (with_notification_id item.notification_id)
      (run outside after_death since).requests.notifications
    ≡ some item
unfolding run step relay find_row member get_field ingest validate only_keys is_name intake admit
    count_rows any_row
found = refl

still_listed :
    check_original item notice (find_row (named item.original_binding) routes.bindings) ≡ ok tt
unfolding find_row member get_field
still_listed = refl

not_paused : paused (find_row (named item.original_binding) routes.bindings) ≡ false
unfolding find_row
not_paused = refl

relay_resumed_example :
    (receipt : Receipt) × (ingest outside.receiver.codec outside.receiver.limits "d1" 70 "build"
        notice routes
      ≡ ok (after_death.monitor, receipt))
    × (relay outside lively routes.bindings (item, notice) (run outside after_death since) ≡ (
      record (run outside after_death since) {
        requests =
            set_notification "n"
              (delivered 71 receipt.delivery_id)
              (run outside after_death since).requests;
      },
      returned true,
    ))
unfolding is_name
relay_resumed_example =
    relay_resumed outside deadly lively routes.bindings routes.bindings item item notice world
      after_death since death refl names refl refl refl found refl not_paused still_listed refl

world-IsSound : IsSound outside [] world
world-IsSound = record {
  unique = (tt, tt);
  table = record { distinct = (tt, tt); backed = (λ closed. ground arith, tt); listed = tt };
}

run-IsSound_example :
    IsSound outside []
      (run outside world (pumps 10 72 72 (λ k. deadly) ∷ pumps 10 80 80 (λ k. lively) ∷ []))
run-IsSound_example =
    run-IsSound outside world (pumps 10 72 72 (λ k. deadly) ∷ pumps 10 80 80 (λ k. lively) ∷ [])
      ((λ k. tt), ((λ k. tt), tt)) world-IsSound
