-- ===== src/Requests/Drained.antt =====
-- What the methods of the outbox write.
use codex_monitor.Common.{
  ℕ, ◌≡◌, refl, inl, inr, ◌⊎◌, String, Bool, ◌&&◌, Option, none, some, arith, ltb, ok, require_ok,
  refuse_if_ok,
}
use Prim.Native.String.{len}
use codex_monitor.Json.{is_name}
use codex_monitor.Requests.State.{Notification, NotificationState, pending, accepted, Store}
use codex_monitor.Requests.Outbox.{
  set_notification, write_open, accept_row, delivered, failed_once, postponed,
  notification_accepted, notification_error, notification_deferred,
}

accept_row_writes :
    (now : ℕ) (id delivery : String) (db db' : Store) (b : Bool) (o : Option Notification)
    → accept_row now id delivery db o ≡ ok (db', b)
    → (db' ≡ db) ⊎ (db' ≡ set_notification id (delivered now delivery) db)
unfolding accept_row
accept_row_writes now id delivery db db' b none e = cc
accept_row_writes now id delivery db db' b (some n) e = go n.state refl
  where
    go :
        (s : NotificationState)
        → n.state ≡ s
        → (db' ≡ db) ⊎ (db' ≡ set_notification id (delivered now delivery) db)
    go accepted h = inl (ground (arith, h, e))
    go pending h = inr (ground (arith, h, e))

write_open_writes :
    (refusal id : String) (f : Notification → Notification) (db db' : Store)
    (o : Option Notification)
    → write_open refusal id f db o ≡ ok db'
    → db' ≡ set_notification id f db
write_open_writes refusal id f db db' none e = cc
write_open_writes refusal id f db db' (some n) e = go n.state refl
  where
    go : (s : NotificationState) → n.state ≡ s → db' ≡ set_notification id f db
    go accepted h = absurd (ground (arith, h, e))
    go pending h = ground (arith, h, e)

pub notification_accepted_writes :
    (now : ℕ) (id delivery : String) (db db' : Store) (b : Bool)
    → notification_accepted now id delivery db ≡ ok (db', b)
    → (db' ≡ db) ⊎ (db' ≡ set_notification id (delivered now delivery) db)
unfolding notification_accepted
notification_accepted_writes now id delivery db db' b e =
    let (_, e1) =
      require_ok (is_name id && is_name delivery) 400 "must be a nonempty identifier" _ e in
    accept_row_writes now id delivery db db' b _ e1

pub notification_error_writes :
    (blank : String → Bool) (now : ℕ) (id message : String) (retry_after : Option ℕ)
    (db db' : Store)
    → notification_error blank now id message retry_after db ≡ ok db'
    → db' ≡ set_notification id (failed_once now message retry_after) db
unfolding notification_error
notification_error_writes blank now id message retry_after db db' e =
    let (_, e1) = require_ok (is_name id) 400 "notification id must be a nonempty identifier" _ e in
    let (_, e2) = refuse_if_ok (blank message) 400 "notification error must be nonempty" _ e1 in
    let (_, e3) =
      refuse_if_ok (ltb 1024 (len message)) 400 "notification error exceeds 1024 bytes" _ e2 in
    write_open_writes "accepted notification cannot be failed" id _ db db' _ e3

pub notification_deferred_writes :
    (blank : String → Bool) (now : ℕ) (id reason : String) (retry_after : ℕ) (db db' : Store)
    → notification_deferred blank now id reason retry_after db ≡ ok db'
    → db' ≡ set_notification id (postponed now reason retry_after) db
unfolding notification_deferred
notification_deferred_writes blank now id reason retry_after db db' e =
    let (_, e1) = require_ok (is_name id) 400 "notification id must be a nonempty identifier" _ e in
    let (_, e2) =
      refuse_if_ok (blank reason) 400 "notification defer reason must be nonempty" _ e1 in
    let (_, e3) =
      refuse_if_ok (ltb 1024 (len reason)) 400 "notification defer reason exceeds 1024 bytes" _
        e2 in
    write_open_writes "accepted notification cannot be deferred" id _ db db' _ e3
