-- ===== src/Requests/State.antt =====
-- The tables of requests.sqlite3, the limits of `RequestStore.__init__` and the states of a request.
-- Rows stand in the order of their `seq`; times are whole microseconds.
use codex_monitor.Common.{
  ℕ, zero, suc, String, Bool, true, false, not, ◌&&◌, Option, none, some, List, ltb, if◌then◌else◌,
  Result, ok, err, ◌>>=◌, ◌>>◌, refuse_if, count_rows, text_append, ◌==◌,
}
use Prim.Native.Nat.{◌/◌, ◌%◌}
use Prim.Native.String.{len}
use codex_monitor.Json.{Value, object}

pub data RequestState : Type 0 where
  received acknowledged in_progress completed failed cancelled expired : RequestState

pub record Request : Type 0 where
  pub request_id : String
  pub conversation_id : String
  pub source : String
  pub request_key : String
  pub original_delivery_id : String
  pub original_binding : String
  pub payload : String
  pub state : RequestState
  pub revision : ℕ
  pub expires_at : Option ℕ
  pub expires_in : Option ℕ
  pub created : ℕ
  pub updated : ℕ

pub record Update : Type 0 where
  pub update_id : String
  pub request_id : String
  pub expected_revision : ℕ
  pub revision : ℕ
  pub previous_state : RequestState
  pub state : RequestState
  pub summary : Option String
  pub created : ℕ

pub data NotificationState : Type 0 where
  pending accepted : NotificationState

pub record Notification : Type 0 where
  pub notification_id : String
  pub request_id : String
  pub update_id : String
  pub revision : ℕ
  pub original_binding : String
  pub source : String
  pub event_id : String
  pub envelope : String
  pub state : NotificationState
  pub attempts : ℕ
  pub next_at : ℕ
  pub delivery_id : Option String
  pub error : Option String
  pub created : ℕ
  pub updated : ℕ

pub record Store : Type 0 where
  pub requests : List Request
  pub updates : List Update
  pub notifications : List Notification

pub record Capacity : Type 0 where
  pub max_requests : ℕ
  pub max_updates_per_request : ℕ
  pub max_notifications : ℕ
  pub max_payload_bytes : ℕ
  pub max_update_bytes : ℕ

-- json.dumps as the module calls it (`none` where it raises) and json.loads of stored text.
pub record Encoding : Type 0 where
  pub dumps : Value → Option String
  pub loads : String → Option Value

abbrev pub is_terminal : RequestState → Bool
is_terminal completed = true
is_terminal failed = true
is_terminal cancelled = true
is_terminal expired = true
is_terminal _ = false

-- `state in NOTIFY_ON`
abbrev pub notifies : RequestState → Bool
notifies received = false
notifies acknowledged = false
notifies _ = true

abbrev pub state_name : RequestState → String
state_name received = "received"
state_name acknowledged = "acknowledged"
state_name in_progress = "in_progress"
state_name completed = "completed"
state_name failed = "failed"
state_name cancelled = "cancelled"
state_name expired = "expired"

-- `target_state in REQUEST_STATES`
unfoldable pub state_of : String → Option RequestState
state_of s =
    if s == "received"
    then some received
    else if s == "acknowledged"
    then some acknowledged
    else if s == "in_progress"
    then some in_progress
    else if s == "completed"
    then some completed
    else if s == "failed"
    then some failed
    else if s == "cancelled"
    then some cancelled
    else if s == "expired"
    then some expired
    else none

abbrev pub is_open : Request → Bool
is_open r = not (is_terminal r.state)

abbrev pub is_pending : Notification → Bool
is_pending n = elim n.state [ pending ↦ true | accepted ↦ false ]

abbrev pub with_request_id : String → Request → Bool
with_request_id id r = r.request_id == id

abbrev pub with_notification_id : String → Notification → Bool
with_notification_id id n = n.notification_id == id

abbrev pub at_key : String → String → String → Request → Bool
at_key conversation source key r =
    r.conversation_id == conversation && (r.source == source && r.request_key == key)

-- `_pending_notification_count`
abbrev pub pending_count : Store → ℕ
pending_count db = count_rows is_pending db.notifications

abbrev pub open_count : Store → ℕ
open_count db = count_rows is_open db.requests

abbrev digit : ℕ → String
digit n =
    if ltb n 1
    then "0"
    else if ltb n 2
    then "1"
    else if ltb n 3
    then "2"
    else if ltb n 4
    then "3"
    else if ltb n 5
    then "4"
    else if ltb n 6
    then "5"
    else if ltb n 7
    then "6"
    else if ltb n 8
    then "7"
    else if ltb n 9
    then "8"
    else "9"

digits : ℕ → ℕ → String → String
digits zero n s = s
digits (suc fuel) n s =
    let rest = digits fuel (n / 10) (text_append (digit (n % 10)) s) in
    if ltb n 10 then text_append (digit n) s else rest

-- A number in an f-string. It has no more digits than its value plus one.
unfoldable pub decimal : ℕ → String
unfolding digits
decimal n = digits (suc n) n ""

abbrev pub encoded_object : ℕ → Option String → Result String
encoded_object limit none = err 400 "must contain finite JSON values"
encoded_object limit (some s) = do
  refuse_if (ltb limit (len s)) 400 "exceeds the limit in bytes"
  ok s

-- `_json_object`
unfoldable pub json_object : Encoding → Value → ℕ → Result String
json_object enc (object fs) limit = encoded_object limit (enc.dumps (object fs))
json_object enc _ limit = err 400 "must be an object"

-- `_optional_json_object`
unfoldable pub optional_json_object : Encoding → Option Value → ℕ → Result (Option String)
unfolding json_object
optional_json_object enc none limit = ok none
optional_json_object enc (some v) limit = do s ← json_object enc v limit; ok (some s)

abbrev pub decoded_object : Option Value → Result Value
decoded_object (some (object fs)) = ok (object fs)
decoded_object (some _) = err 400 "stored object is not an object"
decoded_object none = err 400 "stored object is invalid"

-- `_decode_object`
unfoldable pub decode_object : Encoding → String → Result Value
decode_object enc s = decoded_object (enc.loads s)
