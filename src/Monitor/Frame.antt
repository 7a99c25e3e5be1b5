-- ===== src/Monitor/Frame.antt =====
-- The operations on routes and watches write no event.
use codex_monitor.Common.{ℕ, ◌≡◌, refl, String, Bool, true, false, List, arith, Option}
use codex_monitor.Json.{Value}
use codex_monitor.Endpoint.{Url}
use codex_monitor.Monitor.State.{ManagedWatch, Codec, Db}
use codex_monitor.Monitor.Routes.{Action, bind, rebind, set_enabled, dashboard_action}
use codex_monitor.Monitor.Managed.{
  add_watch, managed_create, managed_set_enabled, managed_remove, managed_set_worker,
  managed_heartbeat,
}
use codex_monitor.Monitor.Machine.{
  Op, ingests, dispatches, crashes, resolves, binds, rebinds, enables, acts, creates, switches,
  removes, reports, beats, Setup, after, step,
}

-- The operations that write no event.
abbrev pub is_event_op : Op → Bool
is_event_op (ingests _ _ _ _) = true
is_event_op (dispatches _ _ _) = true
is_event_op (crashes _ _ _) = true
is_event_op (resolves _ _ _ _) = true
is_event_op _ = false

events-binds :
    (name thread endpoint : String) (sources : List String) (db : Db)
    → (after db (bind name thread endpoint sources db)).events ≡ db.events
unfolding bind
events-binds name thread endpoint sources db = ground arith

events-rebinds :
    (urlsplit : String → Option Url) (name thread previous endpoint : String) (db : Db)
    → (after db (rebind urlsplit name thread previous endpoint db)).events ≡ db.events
unfolding rebind
events-rebinds urlsplit name thread previous endpoint db = ground arith

events-enables :
    (name : String) (enabled : Bool) (db : Db)
    → (after db (set_enabled name enabled db)).events ≡ db.events
unfolding set_enabled
events-enables name enabled db = ground arith

events-acts :
    (now : ℕ) (name thread endpoint : String) (action : Action) (db : Db)
    → (after db (dashboard_action now name thread endpoint action db)).events ≡ db.events
unfolding dashboard_action
events-acts now name thread endpoint action db = ground arith

events-add_watch :
    (w : ManagedWatch) (endpoint : String) (db : Db)
    → (after db (add_watch w endpoint db)).events ≡ db.events
unfolding add_watch
events-add_watch w endpoint db = ground arith

events-creates :
    (codec : Codec) (urlsplit : String → Option Url) (fresh : String) (now : ℕ)
    (thread name path : String) (interval : ℕ) (endpoint : String) (debounce : ℕ)
    (condition : Option Value) (db : Db)
    → (after db (
        managed_create codec urlsplit fresh now thread name path interval endpoint debounce
          condition db)).events
      ≡ db.events
unfolding managed_create
events-creates codec urlsplit fresh now thread name path interval endpoint debounce condition db =
    ground (arith, λ (w : ManagedWatch) (t : String). events-add_watch w t db)

events-switches :
    (now : ℕ) (thread name : String) (enabled : Bool) (db : Db)
    → (after db (managed_set_enabled now thread name enabled db)).events ≡ db.events
unfolding managed_set_enabled
events-switches now thread name enabled db = ground arith

events-removes :
    (now : ℕ) (thread name : String) (db : Db)
    → (after db (managed_remove now thread name db)).events ≡ db.events
unfolding managed_remove
events-removes now thread name db = ground arith

events-reports :
    (now : ℕ) (id state : String) (error delivery sample_error : Option String) (db : Db)
    → (managed_set_worker now id state error delivery sample_error db).events ≡ db.events
unfolding managed_set_worker
events-reports now id state error delivery sample_error db = ground arith

pub events_unchanged :
    (u : Setup) (db : Db) (op : Op) → is_event_op op ≡ false → (step u db op).events ≡ db.events
unfolding step managed_heartbeat
events_unchanged u db (binds name thread endpoint sources) h =
    events-binds name thread endpoint sources db
events_unchanged u db (rebinds name thread previous endpoint) h =
    events-rebinds u.urlsplit name thread previous endpoint db
events_unchanged u db (enables name enabled) h = events-enables name enabled db
events_unchanged u db (acts now name thread endpoint action) h =
    events-acts now name thread endpoint action db
events_unchanged u db (creates fresh now thread name path interval endpoint debounce condition) h =
    events-creates u.codec u.urlsplit fresh now thread name path interval endpoint debounce
      condition db
events_unchanged u db (switches now thread name enabled) h =
    events-switches now thread name enabled db
events_unchanged u db (removes now thread name) h = events-removes now thread name db
events_unchanged u db (reports now id state error delivery sample_error) h =
    events-reports now id state error delivery sample_error db
events_unchanged u db (beats now later id) h = refl
events_unchanged u db _ h = cc
