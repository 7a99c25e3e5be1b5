-- ===== src/Requests/Updates.antt =====
-- `_transition_db` and what it calls. `request_id` is UNIQUE, so that the row which is read back
-- after an update is the row that was written.
use codex_monitor.Common.{
  ℕ, suc, ◌+◌, String, Bool, true, false, not, ◌&&◌, ◌||◌, Option, none, some, [], ◌∷◌, ◌++◌, ltb,
  leb, eqb, if◌then◌else◌, Result, ok, err, ◌>>=◌, ◌>>◌, require, refuse_if, find_row, any_row,
  count_rows, update_rows, text_append, ◌==◌,
}
use codex_monitor.Json.{Value, Fields, text, number, object, field, end}
use codex_monitor.Json.Numeric.{int, pos}
use codex_monitor.Requests.State.{
  RequestState, received, acknowledged, in_progress, Request, Update, pending, Notification, Store,
  Capacity, Encoding, is_terminal, notifies, state_name, state_of, pending_count, open_count,
  decimal, decode_object,
}

abbrev pub same_text : Option String → Option String → Bool
same_text none none = true
same_text (some s) (some t) = s == t
same_text _ _ = false

abbrev pub same_time : Option ℕ → Option ℕ → Bool
same_time none none = true
same_time (some a) (some b) = eqb a b
same_time _ _ = false

-- The result of a method: the row that it reports, and whether it was there before.
pub record Reply : Type 0 where
  pub request : Request
  pub payload : Value
  pub duplicate : Bool

-- `_record`: the stored payload must be read back. (The counts that it reports are not kept.)
unfoldable pub record_of : Encoding → Request → Bool → Result Reply
record_of enc r duplicate = do
  payload ← decode_object enc r.payload
  ok (record { request = r; payload = payload; duplicate = duplicate })

abbrev pub answer : Encoding → Store → Request → Bool → Result (Store × Reply)
answer enc db r duplicate = do reply ← record_of enc r duplicate; ok (db, reply)

-- `_allowed`
unfoldable pub allowed : RequestState → RequestState → Bool
allowed previous target = if is_terminal previous then false else elim target [
  | received ↦ false
  | acknowledged ↦ elim previous [ received ↦ true | _ ↦ false ]
  | in_progress ↦ elim previous [ received ↦ true | acknowledged ↦ true | _ ↦ false ]
  | _ ↦ true
]

-- `_notification_capacity`
unfoldable pub notification_capacity : Capacity → RequestState → Store → Result (Unit {0})
notification_capacity c target db =
    if not (notifies target)
    then ok tt
    else if is_terminal target
    then refuse_if (ltb c.max_notifications (pending_count db + 1)) 429
        "request notification capacity reached"
    else refuse_if (ltb c.max_notifications (pending_count db + open_count db + 1)) 429
        "request notification capacity reserved for open requests"

abbrev pub revision_text : Request → String
revision_text r = text_append r.request_id (text_append "-" (decimal r.revision))

abbrev summary_fields : Option Value → Fields
summary_fields none = end
summary_fields (some v) = field "summary" v end

abbrev status_message : Request → RequestState → String
status_message r state = text_append "Request " (
    text_append r.request_key (
      text_append ": " (
        text_append (state_name state)
          (text_append " (revision " (text_append (decimal r.revision) ").")))))

-- The envelope of a notification.
unfoldable pub notice : Request → RequestState → Option Value → Value
notice r state summary = object (
    field "id" (text (text_append "request-" (revision_text r))) (
      field "source" (text r.source) (
        field "type" (text "request.status.changed") (
          field "data"
            (object (
              field "request_id" (text r.request_id) (
                field "conversation_id" (text r.conversation_id) (
                  field "request_key" (text r.request_key) (
                    field "original_delivery_id" (text r.original_delivery_id) (
                      field "state" (text (state_name state)) (
                        field "revision" (number (int (pos r.revision))) (
                          field "message" (text (status_message r state))
                            (summary_fields summary)))))))))
            end))))

abbrev pub decoded_summary : Encoding → Option String → Result (Option Value)
decoded_summary enc none = ok none
decoded_summary enc (some s) = do v ← decode_object enc s; ok (some v)

abbrev pub encoded_notice : Option String → Result String
encoded_notice none = err 500 "ValueError"
encoded_notice (some s) = ok s

unfoldable pub new_notification : Request → String → String → ℕ → Notification
new_notification r update_id envelope now = record {
  notification_id = text_append "request-notification-" (revision_text r);
  request_id = r.request_id;
  update_id = update_id;
  revision = r.revision;
  original_binding = r.original_binding;
  source = r.source;
  event_id = text_append "request-" (revision_text r);
  envelope = envelope;
  state = pending;
  attempts = 0;
  next_at = now;
  delivery_id = none;
  error = none;
  created = now;
  updated = now;
}

-- The UNIQUE columns of `request_notifications`.
abbrev pub clashes : Notification → Notification → Bool
clashes n m =
    m.notification_id == n.notification_id
    || (m.event_id == n.event_id || (m.request_id == n.request_id && m.update_id == n.update_id))

-- The part of `_insert_notification` behind its early return.
unfoldable pub noted :
    Encoding → Capacity → Request → String → RequestState → Option String → ℕ → Store → Result Store
noted enc c r update_id state summary now db = do
  refuse_if (leb c.max_notifications (pending_count db)) 429 "request notification capacity reached"
  decoded ← decoded_summary enc summary
  envelope ← encoded_notice (enc.dumps (notice r state decoded))
  refuse_if (any_row (clashes (new_notification r update_id envelope now)) db.notifications) 500
      "UNIQUE constraint failed: request_notifications"
  ok (record db {
    notifications = db.notifications ++ new_notification r update_id envelope now ∷ [];
  })

-- `_insert_notification`
unfoldable pub insert_notification :
    Encoding → Capacity → Request → String → RequestState → Option String → ℕ → Store → Result Store
unfolding noted
insert_notification enc c r update_id state summary now db =
    if not (notifies state) then ok db else noted enc c r update_id state summary now db

abbrev pub update_of : String → String → Update → Bool
update_of request_id update_id u = u.request_id == request_id && u.update_id == update_id

abbrev pub updates_of : String → Update → Bool
updates_of request_id u = u.request_id == request_id

abbrev pub new_update : Request → String → RequestState → Option String → ℕ → Update
new_update r update_id target summary now = record {
  update_id = update_id;
  request_id = r.request_id;
  expected_revision = r.revision;
  revision = suc r.revision;
  previous_state = r.state;
  state = target;
  summary = summary;
  created = now;
}

abbrev pub moved : RequestState → ℕ → Request → Request
moved target now r = record r { state = target; revision = suc r.revision; updated = now }

abbrev pub current : Request → Request → Bool
current r s = s.request_id == r.request_id && eqb s.revision r.revision

-- The row of an update and the new state of its request.
abbrev pub write_update : Request → String → RequestState → Option String → ℕ → Store → Store
write_update r update_id target summary now db = record db {
  updates = db.updates ++ new_update r update_id target summary now ∷ [];
  requests = update_rows (current r) (moved target now) db.requests;
}

-- The update that was recorded under this id asked for the same.
abbrev pub same_update : ℕ → String → Option String → Update → Bool
same_update expected target summary u =
    eqb u.expected_revision expected
    && (state_name u.state == target && same_text u.summary summary)

-- A transition to a known state, after the look-up of its id and revision.
unfoldable pub advance :
    Encoding
    → Capacity
    → Request
    → String
    → RequestState
    → Option String
    → ℕ
    → Store
    → Result (Store × Reply)
advance enc c r update_id target summary now db = do
  require (allowed r.state target) 409 "request state transition is not allowed"
  notification_capacity c target db
  refuse_if
      (not (is_terminal target)
        && leb c.max_updates_per_request (count_rows (updates_of r.request_id) db.updates + 1))
      429 "request update capacity reached; terminal expiry slot is reserved"
  db' ←
      insert_notification enc c (moved target now r) update_id target summary now
        (write_update r update_id target summary now db)
  answer enc db' (moved target now r) false

unfoldable pub advance_to :
    Encoding
    → Capacity
    → Request
    → String
    → Option RequestState
    → Option String
    → ℕ
    → Store
    → Result (Store × Reply)
advance_to enc c r update_id none summary now db = err 400 "unknown request state"
advance_to enc c r update_id (some target) summary now db =
    advance enc c r update_id target summary now db

unfoldable pub update_known :
    Encoding
    → Capacity
    → Request
    → String
    → String
    → ℕ
    → Option String
    → ℕ
    → Store
    → Option Update
    → Result (Store × Reply)
unfolding advance_to
update_known enc c r update_id target expected summary now db (some u) =
    if same_update expected target summary u
    then answer enc db r true
    else err 409 "update id already used for different content"
update_known enc c r update_id target expected summary now db none = do
  require (eqb r.revision expected) 409 "request revision conflict"
  advance_to enc c r update_id (state_of target) summary now db

-- `_transition_db`
unfoldable pub transition_db :
    Encoding
    → Capacity
    → Request
    → String
    → String
    → ℕ
    → Option String
    → ℕ
    → Store
    → Result (Store × Reply)
transition_db enc c r update_id target expected summary now db =
    update_known enc c r update_id target expected summary now db
      (find_row (update_of r.request_id update_id) db.updates)
