-- ===== src/Monitor/Managed.antt =====
-- The methods of `Monitor` on managed file watches. A watch owns the route "managed-" + id.
-- `fresh` is the uuid's hex digits; interval and debounce are whole microseconds, as all times are.
use codex_monitor.Common.{
  ℕ, suc, ◌+◌, ◌*◌, String, Bool, true, false, not, ◌&&◌, ◌||◌, Option, none, some, List, [], ◌∷◌,
  ◌++◌, leb, if◌then◌else◌, is_some, Result, ok, ◌>>=◌, ◌>>◌, require, refuse_if, any_row,
  count_rows, select_rows, update_rows, text_append, ◌==◌,
}
use codex_monitor.Json.{Value, is_name}
use codex_monitor.Endpoint.{Url, validate_endpoint}
use codex_monitor.Predicate.Condition.{normalize_condition}
use codex_monitor.Monitor.State.{ManagedWatch, Db, Codec, second}
use codex_monitor.Monitor.Intake.{named, or_refuse}
use codex_monitor.Monitor.Routes.{
  managed_source, has_char, new_binding, insert_binding, worker_after,
}

abbrev pub max_managed_watches : ℕ
max_managed_watches = 128

abbrev pub max_managed_watches_per_thread : ℕ
max_managed_watches_per_thread = 32

abbrev pub live_watch : ManagedWatch → Bool
live_watch w = not w.removed

abbrev pub live_on_thread : String → ManagedWatch → Bool
live_on_thread thread w = w.thread == thread && not w.removed

abbrev pub live_watch_named : String → String → ManagedWatch → Bool
live_watch_named thread name w = w.thread == thread && (w.name == name && not w.removed)

abbrev pub watch_with_id : String → ManagedWatch → Bool
watch_with_id id w = w.id == id

abbrev is_absolute : String → Bool
is_absolute String.[] = false
is_absolute (String.◌∷◌ c s) = String.◌∷◌ c "" == "/"

-- `_managed_validate`; the interval is in whole microseconds.
unfoldable pub managed_validate : String → String → String → ℕ → Result (Unit {0})
unfolding has_char
managed_validate thread name path interval = do
  require (is_name thread) 400 "thread must be a nonempty identifier"
  require (is_name name && not (has_char 47 name)) 400
      "watch name must be a nonempty identifier without '/'"
  require (is_absolute path) 400 "managed file path must be absolute"
  require (leb 100_000 interval && leb interval 86_400_000_000) 400
      "managed watch interval must be between 0.1 and 86400 seconds"

abbrev pub condition_text : Codec → Option Value → Result (Option String)
condition_text codec none = ok none
condition_text codec (some v) = do normal ← normalize_condition codec.compact v; ok (some normal.1)

abbrev pub new_watch : String → ℕ → String → String → String → ℕ → ℕ → Option String → ManagedWatch
new_watch id now thread name path interval debounce condition = record {
  id = id;
  thread = thread;
  name = name;
  path = path;
  interval = interval;
  binding = text_append "managed-" id;
  enabled = true;
  removed = false;
  worker_state = "stopped";
  last_error = none;
  last_sample_error = none;
  last_delivery_id = none;
  worker_seen = none;
  created = now;
  updated = now;
  lifecycle_epoch = 0;
  debounce_seconds = debounce;
  condition_json = condition;
}

-- The transaction of `managed_create`.
unfoldable pub add_watch : ManagedWatch → String → Db → Result Db
add_watch w endpoint db = do
  refuse_if (any_row (live_watch_named w.thread w.name) db.watches) 409
      "a managed watch with this name already exists for the thread"
  refuse_if (leb max_managed_watches (count_rows live_watch db.watches)) 429
      "managed watch capacity reached"
  refuse_if (leb max_managed_watches_per_thread (count_rows (live_on_thread w.thread) db.watches))
      429 "managed watch capacity for this thread reached"
  refuse_if (any_row (watch_with_id w.id) db.watches) 500
      "UNIQUE constraint failed: managed_watches.id"
  db' ← insert_binding (new_binding w.binding w.thread endpoint (managed_source ∷ [])) db
  ok (record db' { watches = db'.watches ++ w ∷ [] })

unfoldable pub managed_create :
    Codec
    → (String → Option Url)
    → String
    → ℕ
    → String
    → String
    → String
    → ℕ
    → String
    → ℕ
    → Option Value
    → Db
    → Result Db
unfolding managed_validate add_watch
managed_create codec urlsplit fresh now thread name path interval endpoint debounce condition db =
    do
      target ← validate_endpoint urlsplit endpoint
      managed_validate thread name path interval
      require (leb debounce 86_400_000_000) 400 "debounce seconds must be between 0 and 86400"
      condition_json ← condition_text codec condition
      add_watch (new_watch fresh now thread name path interval debounce condition_json) target db

-- ORDER BY created DESC LIMIT 1
unfoldable pub newest : List ManagedWatch → Option ManagedWatch
newest [] = none
newest (w ∷ ws) = elim (newest ws) [
  | none ↦ some w
  | some v ↦ if leb v.created w.created then some w else some v
]

-- `_managed_row(thread, name)`
unfoldable pub managed_row : String → String → Db → Result ManagedWatch
unfolding newest
managed_row thread name db =
    or_refuse (newest (select_rows (live_watch_named thread name) db.watches)) 404
      "unknown managed watch"

abbrev pub update_watch : String → (ManagedWatch → ManagedWatch) → Db → Db
update_watch id f db = record db { watches = update_rows (watch_with_id id) f db.watches }

unfoldable pub managed_set_enabled : ℕ → String → String → Bool → Db → Result Db
unfolding managed_row
managed_set_enabled now thread name enabled db = do
  row ← managed_row thread name db
  ok (record db {
    watches =
        update_rows (watch_with_id row.id)
          (λ w. record w {
            enabled = enabled;
            worker_state = worker_after enabled;
            updated = now;
            lifecycle_epoch = suc w.lifecycle_epoch;
          })
          db.watches;
    bindings = update_rows (named row.binding) (λ b. record b { enabled = enabled }) db.bindings;
  })

unfoldable pub managed_remove : ℕ → String → String → Db → Result Db
unfolding managed_row
managed_remove now thread name db = do
  row ← managed_row thread name db
  ok (record db {
    watches =
        update_rows (watch_with_id row.id)
          (λ w. record w {
            enabled = false;
            removed = true;
            worker_state = "stopped";
            updated = now;
            lifecycle_epoch = suc w.lifecycle_epoch;
          })
          db.watches;
    bindings =
        update_rows (named row.binding) (λ b. record b { enabled = false; removed = true })
          db.bindings;
  })

abbrev pub running_watch : String → ManagedWatch → Bool
running_watch id w = w.id == id && (not w.removed && w.enabled)

abbrev record_delivery : ℕ → String → Option String → Db → Db
record_delivery now id none db = db
record_delivery now id (some delivery) db =
    update_watch id (λ w. record w { last_delivery_id = some delivery; updated = now }) db

abbrev write_running : ℕ → String → Option String → Option String → Db → Db
write_running now id error sample_error db = record db {
  watches =
      update_rows (running_watch id)
        (λ w. record w {
          worker_state = "running";
          last_error = error;
          last_sample_error = sample_error;
          worker_seen = some now;
          updated = now;
        })
        db.watches;
}

abbrev write_stopped : ℕ → String → Db → Db
write_stopped now id db =
    update_watch id (λ w. record w { worker_state = "stopped"; worker_seen = none; updated = now })
      db

abbrev keep_or_set : Option String → Option String → Option String
keep_or_set old none = old
keep_or_set old (some new) = some new

abbrev write_state : ℕ → String → String → Option String → Option String → Option String → Db → Db
write_state now id state error delivery sample_error db =
    update_watch id
      (λ w. record w {
        worker_state = state;
        last_error = error;
        last_sample_error = sample_error;
        last_delivery_id = keep_or_set w.last_delivery_id delivery;
        worker_seen = none;
        updated = now;
      })
      db

unfoldable pub managed_set_worker :
    ℕ → String → String → Option String → Option String → Option String → Db → Db
managed_set_worker now id state error delivery sample_error db =
    if state == "running"
    then write_running now id error sample_error (record_delivery now id delivery db)
    else if state == "stopped" && (not (is_some error) && not (is_some delivery))
    then write_stopped now id db
    else write_state now id state error delivery sample_error db

-- The clock is read twice.
unfoldable pub managed_heartbeat : ℕ → ℕ → String → Db → Db
managed_heartbeat now later id db = record db {
  watches =
      update_rows (running_watch id)
        (λ w. record w { worker_state = "running"; worker_seen = some now; updated = later })
        db.watches;
}

abbrev fresh_worker : ℕ → ManagedWatch → Bool
fresh_worker now w = elim w.worker_seen [
  | none ↦ false
  | some seen ↦ w.worker_state == "running" && leb now (seen + 2 * second)
]

-- `collector_status` of `_managed_public`.
unfoldable pub collector_status : ℕ → Bool → ManagedWatch → String
collector_status now receiver_running w =
    if not w.enabled || w.removed
    then "stopped"
    else if receiver_running && fresh_worker now w
    then "running"
    else if w.worker_state == "running"
    then "stale"
    else w.worker_state
