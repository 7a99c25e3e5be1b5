-- ===== src/Dispatcher.antt =====
-- `RequestDispatcher.pump` of codex_monitor/request_dispatch.py: the notifications of the request
-- store, handed to the inbox of the receiver.
use codex_monitor.Common.{
  ℕ, suc, String, Bool, true, false, not, ◌||◌, Option, none, some, List, [], ◌∷◌, if◌then◌else◌,
  Result, ok, err, ◌>>=◌, ◌>>◌, require, member, find_row,
}
use codex_monitor.Json.{Value, entry, is_text}
use codex_monitor.Monitor.State.{Binding, Db}
use codex_monitor.Monitor.Intake.{Receipt, named, ingest}
use codex_monitor.Requests.State.{Notification, Store, Encoding}
use codex_monitor.Requests.Updates.{Reply}
use codex_monitor.Requests.Lifecycle.{expire_due}
use codex_monitor.Requests.Outbox.{
  second, pending_notifications, notification_accepted, notification_error, notification_deferred,
}
use codex_monitor.Monitor.Machine as Receiver
use codex_monitor.Requests.Machine as RequestLog
pub mod Machine
pub mod Backed
pub mod Sound
pub mod Run
pub mod Inbox
pub mod Resumed
pub mod Samples

-- The two databases.
pub record World : Type 0 where
  pub monitor : Db
  pub requests : Store

pub record Outside : Type 0 where
  pub receiver : Receiver.Setup
  pub store : RequestLog.Setup
  -- an exception's text, stripped and cut to 1000 bytes
  pub excerpt : String → String

-- What other threads of the process do with the databases.
pub data Other : Type 0 where
  at_monitor : Receiver.Op → Other
  at_requests : RequestLog.Op → Other

-- What one round of the loop meets: the transactions of others before it, the uuid that it draws,
-- the clock of its two transactions, and whether the process lives until the second.
pub record Round : Type 0 where
  pub meanwhile : List Other
  pub fresh : String
  pub taken_at : ℕ
  pub written_at : ℕ
  pub survives : Bool

pub data Ended : Type 0 where
  returned : Bool → Ended
  raised : ℕ → String → Ended
  died : Ended

abbrev pub Pumped : Type 0
Pumped = World × Ended

abbrev pub interfere : Outside → World → Other → World
interfere o w (at_monitor op) = record w { monitor = Receiver.step o.receiver w.monitor op }
interfere o w (at_requests op) = record w { requests = RequestLog.step o.store w.requests op }

unfoldable pub interfere_all : Outside → World → List Other → World
interfere_all o w [] = w
interfere_all o w (other ∷ others) = interfere_all o (interfere o w other) others

abbrev pub conversation_of : Value → Option Value
conversation_of envelope = elim (entry "data" envelope) [
  | none ↦ none
  | some d ↦ entry "conversation_id" d
]

abbrev pub in_conversation : Binding → Option Value → Result (Unit {0})
in_conversation b none = err 500 "KeyError"
in_conversation b (some v) =
    require (is_text b.thread v) 403 "original request binding or source is unavailable"

abbrev pub check_original : Notification → Value → Option Binding → Result (Unit {0})
check_original item envelope none = err 403 "original request binding or source is unavailable"
check_original item envelope (some b) = do
  require (member item.source b.sources) 403 "original request binding or source is unavailable"
  in_conversation b (conversation_of envelope)

-- The body of the `try`.
abbrev pub take_in :
    Outside → Round → Notification → Value → Option Binding → Db → Result (Db × Receipt)
take_in o r item envelope b db = do
  check_original item envelope b
  ingest o.receiver.codec o.receiver.limits r.fresh r.taken_at item.original_binding envelope db

abbrev pub written : World → Result Store → Pumped
written w (ok db) = (record w { requests = db }, returned false)
written w (err c m) = (w, raised c m)

abbrev pub acknowledged : World → Result (Store × Bool) → Pumped
acknowledged w (ok (db, duplicate)) = (record w { requests = db }, returned true)
acknowledged w (err c m) = (w, raised c m)

-- What follows the `try`.
abbrev pub handed : Outside → Round → Notification → World → Result (Db × Receipt) → Pumped
handed o r item w (err c m) = written w (
    notification_error o.store.blank r.written_at item.notification_id (o.excerpt m) none
      w.requests)
handed o r item w (ok (db, receipt)) =
    if r.survives
    then acknowledged (record w { monitor = db })
        (notification_accepted r.written_at item.notification_id receipt.delivery_id w.requests)
    else (record w { monitor = db }, died)

abbrev pub paused : Option Binding → Bool
paused none = false
paused (some b) = not b.enabled

-- One round of the loop; its Boolean is what it adds to `processed`.
unfoldable pub relay : Outside → Round → List Binding → Notification × Value → World → Pumped
relay o r bindings (item, envelope) w =
    let b = find_row (named item.original_binding) bindings in
    if paused b
    then written w (
        notification_deferred o.store.blank r.written_at item.notification_id
          "original binding is paused" second w.requests)
    else handed o r item w (take_in o r item envelope b w.monitor)

abbrev pub onward : Pumped → Bool → (Bool → World → Pumped) → Pumped
onward (w, returned b) processed next = next (processed || b) w
onward (w, raised c m) processed next = (w, raised c m)
onward (w, died) processed next = (w, died)

unfoldable pub relay_all :
    Outside → (ℕ → Round) → ℕ → List Binding → List (Notification × Value) → Bool → World → Pumped
unfolding relay interfere_all
relay_all o rounds k bindings [] processed w = (w, returned processed)
relay_all o rounds k bindings (item ∷ items) processed w =
    onward (relay o (rounds k) bindings item (interfere_all o w (rounds k).meanwhile)) processed
      (λ p w'. relay_all o rounds (suc k) bindings items p w')

abbrev decoded :
    Notification
    → Option Value
    → Result (List (Notification × Value))
    → Result (List (Notification × Value))
decoded n none rest = err 500 "JSONDecodeError"
decoded n (some v) rest = do items ← rest; ok ((n, v) ∷ items)

-- `_notification_value` of each row: the stored envelope is decoded.
unfoldable pub notification_values :
    Encoding → List Notification → Result (List (Notification × Value))
notification_values enc [] = ok []
notification_values enc (n ∷ ns) = decoded n (enc.loads n.envelope) (notification_values enc ns)

abbrev any_reply : List Reply → Bool
any_reply [] = false
any_reply (r ∷ rs) = true

abbrev pub listed :
    Outside → (ℕ → Round) → Bool → World → Result (List (Notification × Value)) → Pumped
listed o rounds expired w (err c m) = (w, raised c m)
listed o rounds expired w (ok items) = relay_all o rounds 0 w.monitor.bindings items expired w

abbrev pub after_expiry :
    Outside → ℕ → ℕ → (ℕ → Round) → World → Result (Store × List Reply) → Pumped
after_expiry o batch now rounds w (err c m) = (w, raised c m)
after_expiry o batch now rounds w (ok (db, replies)) =
    listed o rounds (any_reply replies) (record w { requests = db })
      (pending_notifications batch now db >>= notification_values o.store.encoding)

-- The clock is read for the expiry, for the list, and in each round.
unfoldable pub pump : Outside → ℕ → ℕ → ℕ → (ℕ → Round) → World → Pumped
unfolding relay_all notification_values
pump o batch expired_at listed_at rounds w =
    after_expiry o batch listed_at rounds w
      (expire_due o.store.encoding o.store.capacity expired_at batch w.requests)
