-- ===== src/Dispatcher/Resumed.antt =====
-- A death between the two databases is made good by a later round.
use codex_monitor.Common.{
  ℕ, ◌≡◌, refl, subst, String, Bool, true, false, some, List, arith, inl, inr, Bool-cases, Result,
  ok, err, bind_ok, All, All-find_row, find_row,
}
use codex_monitor.Json.{Value, is_name}
use codex_monitor.Monitor.State.{Binding, Db}
use codex_monitor.Monitor.Intake.{Receipt, named, validate, ingest}
use codex_monitor.Monitor.Dedup.{intake-IsTaken, intake_again}
use codex_monitor.Monitor.Recalled.{
  IsRecalled, IsRecalled-IsTaken, IsTaken-IsRecalled, step-IsRecalled,
}
use codex_monitor.Dispatcher.Machine.{Op, run}
use codex_monitor.Dispatcher.Inbox.{run-Inbox}
use codex_monitor.Requests.State.{
  Notification, NotificationState, pending, accepted, Store, is_pending, with_notification_id,
}
use codex_monitor.Requests.Outbox.{set_notification, accept_row, notification_accepted, delivered}
use codex_monitor.Dispatcher.{
  World, Outside, Round, Ended, returned, died, Pumped, check_original, take_in, written,
  acknowledged, handed, paused, relay,
}

abbrev pub has_died : Ended → Bool
has_died died = true
has_died _ = false

-- The items, the rounds and the tables of a round in which the process dies.
record IsDeath (o : Outside) (r : Round) (bindings : List Binding) (item : Notification) (v : Value)
    (w w1 : World) : Type 0 where
  open_route : paused (find_row (named item.original_binding) bindings) ≡ false
  receipt : Receipt
  original : check_original item v (find_row (named item.original_binding) bindings) ≡ ok tt
  taken :
      ingest o.receiver.codec o.receiver.limits r.fresh r.taken_at item.original_binding v w.monitor
      ≡ ok (w1.monitor, receipt)
  requests : w1.requests ≡ w.requests

module _ (o : Outside) (r : Round) (bindings : List Binding) (item : Notification) (v : Value)
    (w : World) where
  written_lives : (a : Result Store) (w1 : World) → written w a ≡ (w1, died) → ⊥
  written_lives (ok db) w1 e = ground arith
  written_lives (err c m) w1 e = ground arith

  acknowledged_lives :
      (u : World) (a : Result (Store × Bool)) (w1 : World) → acknowledged u a ≡ (w1, died) → ⊥
  acknowledged_lives u (ok (db, b)) w1 e = ground arith
  acknowledged_lives u (err c m) w1 e = ground arith

  died_world : (a b : World) → ◌≡◌ {A = Pumped} (a, died) (b, died) → a ≡ b
  died_world a b e = cc

  handed-IsDeath :
      (w1 : World) (a : Result (Db × Receipt))
      → paused (find_row (named item.original_binding) bindings) ≡ false
      → take_in o r item v (find_row (named item.original_binding) bindings) w.monitor ≡ a
      → handed o r item w a ≡ (w1, died)
      → IsDeath o r bindings item v w w1
  handed-IsDeath w1 (err c m) p t e = absurd (written_lives _ w1 e)
  handed-IsDeath w1 (ok (db, receipt)) p t e = elim (Bool-cases r.survives) [
    | inl lives ↦ absurd (
        acknowledged_lives (record w { monitor = db })
          (notification_accepted r.written_at item.notification_id receipt.delivery_id w.requests)
          w1 (rw lives at e))
    | inr dies ↦
        let (_, original, taken) =
          bind_ok (check_original item v (find_row (named item.original_binding) bindings)) _ t in
        let same : record w { monitor = db } ≡ w1 = died_world _ w1 (rw dies at e) in
        subst (IsDeath o r bindings item v w) same (record {
          open_route = p;
          receipt = receipt;
          original = original;
          taken = taken;
          requests = refl;
        })
  ]

  relay-IsDeath :
      (w1 : World) → relay o r bindings (item, v) w ≡ (w1, died) → IsDeath o r bindings item v w w1
  unfolding relay
  relay-IsDeath w1 e =
      elim (Bool-cases (paused (find_row (named item.original_binding) bindings))) [
        | inl p ↦ absurd (written_lives _ w1 (rw p at e))
        | inr p ↦ handed-IsDeath w1 _ p refl (rw p at e)
      ]

accept_open :
    (now : ℕ) (delivery : String) (item : Notification) (db : Store)
    → is_name item.notification_id ≡ true
    → is_name delivery ≡ true
    → find_row (with_notification_id item.notification_id) db.notifications ≡ some item
    → is_pending item ≡ true
    → notification_accepted now item.notification_id delivery db
      ≡ ok (set_notification item.notification_id (delivered now delivery) db, false)
unfolding notification_accepted accept_row
accept_open now delivery item db named_id named_delivery found p = go item.state refl
  where
    go :
        (s : NotificationState)
        → item.state ≡ s
        → notification_accepted now item.notification_id delivery db
          ≡ ok (set_notification item.notification_id (delivered now delivery) db, false)
    go pending h = ground (arith, h, named_id, named_delivery, found)
    go accepted h = absurd (ground (arith, h, p))

-- A round of which each part is known to succeed.
relay_accepts :
    (o : Outside) (r : Round) (bindings : List Binding) (item : Notification) (v : Value)
    (w : World) (receipt : Receipt) (db : Store)
    → paused (find_row (named item.original_binding) bindings) ≡ false
    → check_original item v (find_row (named item.original_binding) bindings) ≡ ok tt
    → ingest o.receiver.codec o.receiver.limits r.fresh r.taken_at item.original_binding v w.monitor
      ≡ ok (w.monitor, receipt)
    → r.survives ≡ true
    → notification_accepted r.written_at item.notification_id receipt.delivery_id w.requests
      ≡ ok (db, false)
    → relay o r bindings (item, v) w ≡ (record w { requests = db }, returned true)
unfolding relay
relay_accepts o r bindings item v w receipt db p original taken lives accepts =
    rw p (rw original (rw taken (rw lives (rw accepts refl))))

-- An event that some round took is answered by its first receipt in the process's later inboxes.
taken_again :
    (o : Outside) (fresh later_fresh : String) (now later : ℕ) (binding : String) (v : Value)
    (db : Db) (w : World) (receipt : Receipt) (ops : List Op)
    → ingest o.receiver.codec o.receiver.limits fresh now binding v db ≡ ok (w.monitor, receipt)
    → ingest o.receiver.codec o.receiver.limits later_fresh later binding v (run o w ops).monitor
      ≡ ok ((run o w ops).monitor, record { delivery_id = receipt.delivery_id; duplicate = true })
unfolding ingest
taken_again o fresh later_fresh now later binding v db w receipt ops e =
    let (h, valid, took) = bind_ok (validate o.receiver.codec v) _ e in
    let first =
      intake-IsTaken o.receiver.codec o.receiver.limits fresh now binding h db w.monitor receipt
        took in
    let recalled =
      run-Inbox o (IsRecalled binding h receipt.delivery_id)
        (λ d op. step-IsRecalled binding h receipt.delivery_id o.receiver d op) w ops
        (IsTaken-IsRecalled binding h receipt.delivery_id w.monitor first) in
    rw valid (
      intake_again o.receiver.codec o.receiver.limits later_fresh later binding h
        (run o w ops).monitor
        (IsRecalled-IsTaken binding h receipt.delivery_id (run o w ops).monitor recalled))

taken_name :
    (o : Outside) (fresh : String) (now : ℕ) (binding : String) (v : Value) (db db' : Db)
    (receipt : Receipt)
    → ingest o.receiver.codec o.receiver.limits fresh now binding v db ≡ ok (db', receipt)
    → All (λ e. is_name e.id ≡ true) db'.events
    → is_name receipt.delivery_id ≡ true
unfolding ingest
taken_name o fresh now binding v db db' receipt e names =
    let (h, valid, took) = bind_ok (validate o.receiver.codec v) _ e in
    let t =
      intake-IsTaken o.receiver.codec o.receiver.limits fresh now binding h db db' receipt took in
    subst (λ i. is_name i ≡ true) t.receipt
      (All-find_row (λ x. is_name x.id ≡ true) _ db'.events names t.stored)

-- Where the process died in a round, after the inbox took the notification and before the outbox
-- says so, a later round on that notification finds the first delivery, whatever the process did in
-- between (pumps that may die again, and the operations of other threads on both databases): it
-- adds no event, and marks the notification as accepted under the first delivery's id. The later
-- round is on a row of the same id, route and source that the table has as pending, its route is
-- not paused then and still passes the check of the origin, and the process lives to its end;
-- notification ids and delivery ids are identifiers.
pub relay_resumed :
    (o : Outside) (r r2 : Round) (bindings later_bindings : List Binding)
    (item later_item : Notification) (v : Value) (w w1 : World) (ops : List Op)
    → relay o r bindings (item, v) w ≡ (w1, died)
    → is_name item.notification_id ≡ true
    → All (λ e. is_name e.id ≡ true) w1.monitor.events
    → later_item.notification_id ≡ item.notification_id
    → later_item.original_binding ≡ item.original_binding
    → later_item.source ≡ item.source
    → find_row
        (with_notification_id later_item.notification_id)
        (run o w1 ops).requests.notifications
      ≡ some later_item
    → is_pending later_item ≡ true
    → paused (find_row (named item.original_binding) later_bindings) ≡ false
    → check_original item v (find_row (named item.original_binding) later_bindings) ≡ ok tt
    → r2.survives ≡ true
    → (receipt : Receipt) × (ingest o.receiver.codec o.receiver.limits r.fresh r.taken_at
          item.original_binding v w.monitor
        ≡ ok (w1.monitor, receipt))
      × (relay o r2 later_bindings (later_item, v) (run o w1 ops) ≡ (
        record (run o w1 ops) {
          requests =
              set_notification item.notification_id
                (delivered r2.written_at receipt.delivery_id)
                (run o w1 ops).requests;
        },
        returned true,
      ))
relay_resumed o r r2 bindings later_bindings item later_item v w w1 ops e named_id names same_id
      same_route same_source found p unpaused original lives =
    let d = relay-IsDeath o r bindings item v w w1 e in
    let later = run o w1 ops in
    let again =
      taken_again o r.fresh r2.fresh r.taken_at r2.taken_at item.original_binding v w.monitor w1
        d.receipt ops d.taken in
    let named_delivery =
      taken_name o r.fresh r.taken_at item.original_binding v w.monitor w1.monitor d.receipt d.taken
        names in
    let accepts =
      accept_open r2.written_at d.receipt.delivery_id later_item later.requests
        (rw same_id named_id) named_delivery found p in
    (
      d.receipt,
      d.taken,
      subst
          (λ i. relay o r2 later_bindings (later_item, v) later ≡ (
            record later {
              requests =
                  set_notification i (delivered r2.written_at d.receipt.delivery_id) later.requests;
            },
            returned true,
          ))
          same_id
          (relay_accepts o r2 later_bindings later_item v later
            (record { delivery_id = d.receipt.delivery_id; duplicate = true }) _
            (rw same_route unpaused) (rw same_route (rw same_source original)) (rw same_route again)
            lives accepts),
    )
