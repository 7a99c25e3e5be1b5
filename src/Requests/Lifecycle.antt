-- ===== src/Requests/Lifecycle.antt =====
-- `create`, `create_for_parent`, `get`, `transition` and `expire_due`.
use codex_monitor.Common.{
  ℕ, ◌+◌, String, Bool, true, false, ◌&&◌, ◌||◌, Option, none, some, List, [], ◌∷◌, ◌++◌, ltb, leb,
  if◌then◌else◌, is_some, Result, ok, err, ◌>>=◌, ◌>>◌, require, refuse_if, find_row, any_row,
  select_rows, length, take, text_append, ◌==◌,
}
use codex_monitor.Json.{Value, is_name}
use codex_monitor.Requests.State.{
  received, Request, Store, Capacity, Encoding, is_open, with_request_id, at_key, pending_count,
  open_count, json_object, optional_json_object,
}
use codex_monitor.Requests.Updates.{Reply, answer, same_time, revision_text, transition_db}

abbrev pub identifier : String → Result (Unit {0})
identifier s = require (is_name s) 400 "must be a nonempty identifier"

-- What `create` is called with; `payload` is the encoded object.
pub record Draft : Type 0 where
  pub conversation_id : String
  pub source : String
  pub request_key : String
  pub original_delivery_id : String
  pub original_binding : String
  pub payload : String
  pub expires_at : Option ℕ
  pub expires_in : Option ℕ

-- A relative expiry is compared as it was given, an absolute one as the time it names.
abbrev pub same_expiry : Draft → Request → Bool
same_expiry d r =
    if is_some d.expires_in || is_some r.expires_in
    then same_time r.expires_in d.expires_in
    else same_time r.expires_at d.expires_at

abbrev pub same_request : Draft → Request → Bool
same_request d r =
    r.original_delivery_id == d.original_delivery_id
    && (r.original_binding == d.original_binding && (r.payload == d.payload && same_expiry d r))

unfoldable pub new_request : String → ℕ → Draft → Request
new_request fresh now d = record {
  request_id = fresh;
  conversation_id = d.conversation_id;
  source = d.source;
  request_key = d.request_key;
  original_delivery_id = d.original_delivery_id;
  original_binding = d.original_binding;
  payload = d.payload;
  state = received;
  revision = 0;
  expires_at = d.expires_at;
  expires_in = d.expires_in;
  created = now;
  updated = now;
}

unfoldable pub known_or_created :
    Encoding → Capacity → String → ℕ → Draft → Store → Option Request → Result (Store × Reply)
known_or_created enc c fresh now d db (some r) =
    if same_request d r
    then answer enc db r true
    else err 409 "request key already belongs to different immutable content"
known_or_created enc c fresh now d db none = do
  refuse_if (leb c.max_requests (length db.requests)) 429 "request capacity reached"
  refuse_if (ltb c.max_notifications (pending_count db + open_count db + 1)) 429
      "request notification capacity reserved for open requests"
  refuse_if (any_row (with_request_id fresh) db.requests) 500
      "UNIQUE constraint failed: requests.request_id"
  answer enc (record db { requests = db.requests ++ new_request fresh now d ∷ [] })
      (new_request fresh now d) false

-- The transaction of `create`.
unfoldable pub create_in : Encoding → Capacity → String → ℕ → Draft → Store → Result (Store × Reply)
unfolding known_or_created
create_in enc c fresh now d db =
    known_or_created enc c fresh now d db
      (find_row (at_key d.conversation_id d.source d.request_key) db.requests)

abbrev pub deadline : ℕ → Option ℕ → Option ℕ → Option ℕ
deadline now expires_at none = expires_at
deadline now expires_at (some delay) = some (now + delay)

abbrev pub draft :
    ℕ → String → String → String → String → String → String → Option ℕ → Option ℕ → Draft
draft now conversation source key delivery binding payload expires_at expires_in = record {
  conversation_id = conversation;
  source = source;
  request_key = key;
  original_delivery_id = delivery;
  original_binding = binding;
  payload = payload;
  expires_at = deadline now expires_at expires_in;
  expires_in = expires_in;
}

unfoldable pub create :
    Encoding
    → Capacity
    → String
    → ℕ
    → String
    → String
    → String
    → String
    → String
    → Value
    → Option ℕ
    → Option ℕ
    → Store
    → Result (Store × Reply)
unfolding create_in json_object
create enc c fresh now conversation source key delivery binding payload expires_at expires_in db =
    do
      identifier conversation
      identifier source
      identifier key
      identifier delivery
      identifier binding
      payload_json ← json_object enc payload c.max_payload_bytes
      refuse_if (is_some expires_at && is_some expires_in) 400
          "expiry and expires_in are mutually exclusive"
      create_in enc c fresh now
          (draft now conversation source key delivery binding payload_json expires_at expires_in) db

unfoldable pub transition_row :
    Encoding
    → Capacity
    → ℕ
    → Option Request
    → String
    → String
    → ℕ
    → Option String
    → Store
    → Result (Store × Reply)
transition_row enc c now none update_id target expected summary db = err 404 "request not found"
transition_row enc c now (some r) update_id target expected summary db =
    transition_db enc c r update_id target expected summary now db

unfoldable pub transition :
    Encoding
    → Capacity
    → ℕ
    → String
    → String
    → String
    → String
    → String
    → ℕ
    → Option Value
    → Store
    → Result (Store × Reply)
unfolding transition_row optional_json_object
transition enc c now conversation source key update_id target expected summary db = do
  identifier conversation
  identifier source
  identifier key
  identifier update_id
  identifier target
  summary_json ← optional_json_object enc summary c.max_update_bytes
  transition_row enc c now (find_row (at_key conversation source key) db.requests) update_id target
      expected summary_json db

abbrev past : ℕ → Option ℕ → Bool
past now none = false
past now (some t) = leb t now

abbrev pub overdue : ℕ → Request → Bool
overdue now r = past now r.expires_at && is_open r

abbrev pub expiry_id : Request → String
expiry_id r = text_append "request-expiry-" (revision_text r)

abbrev pub also : Reply → Result (Store × List Reply) → Result (Store × List Reply)
also reply rest = do (db, replies) ← rest; ok (db, reply ∷ replies)

-- The loop of `expire_due`; it stops where the outbox is full, and an error undoes all of it.
unfoldable pub expire_rows :
    Encoding → Capacity → ℕ → List Request → Store → Result (Store × List Reply)
expire_rows enc c now [] db = ok (db, [])
expire_rows enc c now (r ∷ rs) db = elim (leb c.max_notifications (pending_count db)) [
  | true ↦ ok (db, [])
  | false ↦ do
    (db', reply) ← transition_db enc c r (expiry_id r) "expired" r.revision none now db
    also reply (expire_rows enc c now rs db')
]

unfoldable pub expire_due : Encoding → Capacity → ℕ → ℕ → Store → Result (Store × List Reply)
unfolding expire_rows
expire_due enc c now limit db = do
  require (leb 1 limit && leb limit 100) 400 "expiry limit must be 1..100"
  expire_rows enc c now (take limit (select_rows (overdue now) db.requests)) db
