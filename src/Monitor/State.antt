-- ===== src/Monitor/State.antt =====
-- The tables of monitor.sqlite3, the limits of `Monitor.__init__`, and what the code uses of JSON.
-- Times are whole microseconds. A row's `seq` comes from `next_seq` (AUTOINCREMENT).
use codex_monitor.Common.{ℕ, ◌≡◌, String, Bool, true, false, Option, some, List, []}
use codex_monitor.Json.{Value, Fields, object, get_field, text_option}

pub record Binding : Type 0 where
  pub name : String
  pub thread : String
  pub endpoint : String
  pub sources : List String
  pub enabled : Bool
  pub removed : Bool

pub data EventState : Type 0 where
  pending submitting uncertain accepted dead discarded ignored : EventState

pub record Event : Type 0 where
  pub seq : ℕ
  pub id : String
  pub binding : String
  pub source : String
  pub event_id : String
  pub envelope : String
  pub client_id : String
  pub state : EventState
  pub created : ℕ
  pub updated : ℕ
  pub attempts : ℕ
  pub next_at : ℕ
  pub submission_id : Option String
  pub error : Option String

pub record Decision : Type 0 where
  pub delivery_id : String
  pub action : String
  pub reason : String
  pub created : ℕ

pub record ManagedWatch : Type 0 where
  pub id : String
  pub thread : String
  pub name : String
  pub path : String
  pub interval : ℕ
  pub binding : String
  pub enabled : Bool
  pub removed : Bool
  pub worker_state : String
  pub last_error : Option String
  pub last_sample_error : Option String
  pub last_delivery_id : Option String
  pub worker_seen : Option ℕ
  pub created : ℕ
  pub updated : ℕ
  pub lifecycle_epoch : ℕ
  pub debounce_seconds : ℕ
  pub condition_json : Option String

pub record Metadata : Type 0 where
  pub thread : String
  pub project : String
  pub display_name : String

pub record Db : Type 0 where
  pub bindings : List Binding
  pub events : List Event
  pub next_seq : ℕ
  pub decisions : List Decision
  pub watches : List ManagedWatch
  pub metadata : List Metadata

pub record Limits : Type 0 where
  pub max_attempts : ℕ
  pub max_age : ℕ
  pub max_pending : ℕ
  pub rate_limit : ℕ
  pub trace_limit : ℕ

abbrev pub empty_db : Db
empty_db = record {
  bindings = [];
  events = [];
  next_seq = 1;
  decisions = [];
  watches = [];
  metadata = [];
}

abbrev pub second : ℕ
second = 1000000

-- `state IN ('pending','submitting','uncertain')`
abbrev pub is_active : EventState → Bool
is_active pending = true
is_active submitting = true
is_active uncertain = true
is_active _ = false

abbrev pub is_pending : EventState → Bool
is_pending pending = true
is_pending _ = false

-- What is used of code outside the repository: json.dumps as `compact` calls it (`none` where it
-- raises) and SQLite's json_extract(envelope, '$.trace_id'), which reads back the entry written.
pub record Codec : Type 0 where
  pub compact : Value → Option String
  pub trace_of : String → Option String
  pub trace_of-compact :
      (fs : Fields) (s : String)
      → compact (object fs) ≡ some s
      → trace_of s ≡ text_option (get_field "trace_id" fs)
