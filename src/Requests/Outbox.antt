-- ===== src/Requests/Outbox.antt =====
-- The outbox: `pending_notifications`, `notification_accepted`, `notification_error` and
-- `notification_deferred`.
use codex_monitor.Common.{
  ℕ, suc, ◌+◌, ◌-◌, ◌*◌, ◌^◌, min, String, Bool, true, false, not, ◌&&◌, ◌||◌, Option, none, some,
  List, [], ◌∷◌, ltb, leb, eqb, if◌then◌else◌, Result, ok, err, ◌>>◌, require, refuse_if, find_row,
  any_row, select_rows, update_rows, take, ◌==◌,
}
use Prim.Native.String.{len}
use codex_monitor.Json.{is_name}
use codex_monitor.Requests.State.{
  Notification, pending, accepted, Store, is_pending, with_notification_id,
}

abbrev pub second : ℕ
second = 1000000

-- MAX_NOTIFICATION_BACKOFF_SECONDS
abbrev pub max_backoff : ℕ
max_backoff = 60 * second

-- `earlier.revision<current.revision AND earlier.state<>'accepted'`
abbrev pub holds_back : Notification → Notification → Bool
holds_back n earlier =
    earlier.request_id == n.request_id && (ltb earlier.revision n.revision && is_pending earlier)

abbrev pub ready : ℕ → Store → Notification → Bool
ready now db n =
    is_pending n && (leb n.next_at now && not (any_row (holds_back n) db.notifications))

-- ORDER BY next_at, created; rows that tie keep the order of the table.
abbrev pub due_before : Notification → Notification → Bool
due_before a b = ltb a.next_at b.next_at || (eqb a.next_at b.next_at && leb a.created b.created)

unfoldable pub insert_due : Notification → List Notification → List Notification
insert_due n [] = n ∷ []
insert_due n (m ∷ ms) =
    let rest = insert_due n ms in if due_before n m then n ∷ m ∷ ms else m ∷ rest

unfoldable pub sort_due : List Notification → List Notification
unfolding insert_due
sort_due [] = []
sort_due (n ∷ ns) = insert_due n (sort_due ns)

unfoldable pub pending_notifications : ℕ → ℕ → Store → Result (List Notification)
unfolding sort_due
pending_notifications limit now db = do
  require (leb 1 limit && leb limit 100) 400 "notification limit must be 1..100"
  ok (take limit (sort_due (select_rows (ready now db) db.notifications)))

abbrev pub open_notification : String → Notification → Bool
open_notification id n = n.notification_id == id && is_pending n

abbrev pub delivered : ℕ → String → Notification → Notification
delivered now delivery n = record n {
  state = accepted;
  delivery_id = some delivery;
  error = none;
  updated = now;
}

abbrev pub delivered_as : String → Option String → Bool
delivered_as delivery none = false
delivered_as delivery (some d) = d == delivery

abbrev pub set_notification : String → (Notification → Notification) → Store → Store
set_notification id f db = record db {
  notifications = update_rows (open_notification id) f db.notifications;
}

-- The Boolean is the `duplicate` of the answer.
unfoldable pub accept_row :
    ℕ → String → String → Store → Option Notification → Result (Store × Bool)
accept_row now id delivery db none = err 404 "notification not found"
accept_row now id delivery db (some n) = elim n.state [
  | accepted ↦
      if delivered_as delivery n.delivery_id
      then ok (db, true)
      else err 409 "notification already accepted with a different delivery"
  | pending ↦ ok (set_notification id (delivered now delivery) db, false)
]

unfoldable pub notification_accepted : ℕ → String → String → Store → Result (Store × Bool)
unfolding accept_row
notification_accepted now id delivery db = do
  require (is_name id && is_name delivery) 400 "must be a nonempty identifier"
  accept_row now id delivery db (find_row (with_notification_id id) db.notifications)

abbrev retry_delay : Option ℕ → ℕ → ℕ
retry_delay (some d) attempts = min d max_backoff
retry_delay none attempts = min 60 (2 ^ min (attempts - 1) 6) * second

unfoldable pub failed_once : ℕ → String → Option ℕ → Notification → Notification
failed_once now message retry_after n = record n {
  attempts = suc n.attempts;
  next_at = now + retry_delay retry_after (suc n.attempts);
  error = some message;
  updated = now;
}

unfoldable pub postponed : ℕ → String → ℕ → Notification → Notification
postponed now reason retry_after n = record n {
  next_at = now + min retry_after max_backoff;
  error = some reason;
  updated = now;
}

abbrev pub write_open :
    String → String → (Notification → Notification) → Store → Option Notification → Result Store
write_open refusal id f db none = err 404 "notification not found"
write_open refusal id f db (some n) = elim n.state [
  | accepted ↦ err 409 refusal
  | pending ↦ ok (set_notification id f db)
]

-- `blank` tells a text that has nothing but white space.
unfoldable pub notification_error :
    (String → Bool) → ℕ → String → String → Option ℕ → Store → Result Store
notification_error blank now id message retry_after db = do
  require (is_name id) 400 "notification id must be a nonempty identifier"
  refuse_if (blank message) 400 "notification error must be nonempty"
  refuse_if (ltb 1024 (len message)) 400 "notification error exceeds 1024 bytes"
  write_open "accepted notification cannot be failed" id (failed_once now message retry_after) db
      (find_row (with_notification_id id) db.notifications)

unfoldable pub notification_deferred :
    (String → Bool) → ℕ → String → String → ℕ → Store → Result Store
notification_deferred blank now id reason retry_after db = do
  require (is_name id) 400 "notification id must be a nonempty identifier"
  refuse_if (blank reason) 400 "notification defer reason must be nonempty"
  refuse_if (ltb 1024 (len reason)) 400 "notification defer reason exceeds 1024 bytes"
  write_open "accepted notification cannot be deferred" id (postponed now reason retry_after) db
      (find_row (with_notification_id id) db.notifications)
