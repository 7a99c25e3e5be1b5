-- ===== src/Dispatcher/Backed.antt =====
-- An accepted notification stands in the inbox.
use codex_monitor.Common.{
  ℕ, ◌≡◌, refl, sym, ap, subst, String, Bool, true, false, ◌&&◌, Option, none, some, List, arith,
  inl, inr, Option-cases, ok, bind_ok, any_row, update_rows, find_row-hit, any_row-find_row, All,
  All-mono, All-append, ◌==◌, eq_refl, eq_iff, All-update_to, All-always, All-×, ◌∙◌, Distinct,
  map-update_rows, any_row-update_rows,
}
use codex_monitor.Json.{Value, null, object}
use codex_monitor.Monitor.State.{Event, Db, Codec, Limits}
use codex_monitor.Monitor.Intake.{Header, Receipt, validate, ingest, same_event}
use codex_monitor.Monitor.Machine.{Op, after_receipt, step}
use codex_monitor.Monitor.Dedup.{intake-IsTaken}
use codex_monitor.Monitor.Present.{step-Has, ingest-Has}
use codex_monitor.Requests.State.{Notification, is_pending}
use codex_monitor.Requests.Outbox.{
  delivered, delivered_as, failed_once, postponed, open_notification,
}
use codex_monitor.Requests.Posted.{
  DistinctNotes, Appends, DistinctNotes-Appends, is_row, is_row-Appends, is_row_unique,
}
use codex_monitor.Dispatcher.{Outside}

abbrev pub encoded_as : Option String → String → Bool
encoded_as none s = false
encoded_as (some t) s = t == s

abbrev wire_of : Outside → Option Value → Option String
wire_of o none = none
wire_of o (some v) = o.receiver.codec.compact v

-- What `ingest` makes of the stored envelope.
abbrev pub wire : Outside → String → Option String
wire o s = wire_of o (o.store.encoding.loads s)

-- The event carries the notification: it stands under the delivery id and the binding of the
-- notification, with its envelope.
abbrev pub carries : Outside → Notification → Event → Bool
carries o n e =
    encoded_as (wire o n.envelope) e.envelope
    && (e.binding == n.original_binding && delivered_as e.id n.delivery_id)

abbrev pub IsBacked : Outside → Db → Notification → Type 0
IsBacked o db n = is_pending n ≡ false → any_row (carries o n) db.events ≡ true

validate_encoded :
    (codec : Codec) (v : Value) (h : Header)
    → validate codec v ≡ ok h
    → codec.compact v ≡ some h.encoded
unfolding validate
validate_encoded codec (object fs) h e = elim (Option-cases (codec.compact (object fs))) [
  | inl t ↦ absurd (ground arith)
  | inr (s, t) ↦ ground arith
]
validate_encoded codec null h e = cc
validate_encoded codec _ h e = cc

-- `ingest` took the envelope: an event of the table has it, under the receipt's id.
pub ingest_carries :
    (codec : Codec) (l : Limits) (fresh : String) (now : ℕ) (binding : String) (v : Value)
    (db db' : Db) (r : Receipt)
    → ingest codec l fresh now binding v db ≡ ok (db', r)
    → any_row
        (λ e.
          encoded_as (codec.compact v) e.envelope
          && (e.binding == binding && delivered_as e.id (some r.delivery_id)))
        db'.events
      ≡ true
unfolding ingest
ingest_carries codec l fresh now binding v db db' r e =
    let (h, valid, taken) = bind_ok (validate codec v) _ e in
    let t = intake-IsTaken codec l fresh now binding h db db' r taken in
    any_row-find_row (same_event binding h) _ db'.events t.stored (
      ground (
        arith,
        validate_encoded codec v h valid,
        t.content,
        t.receipt,
        find_row-hit (same_event binding h) db'.events t.stored,
        eq_refl h.encoded,
        eq_refl r.delivery_id,
      ))

-- The table of notifications, and the items that a pump has still to send.
pub record IsTable (o : Outside) (items : List (Notification × Value)) (db : Db)
    (ns : List Notification) : Type 0 where
  pub distinct : DistinctNotes ns
  pub backed : All (IsBacked o db) ns
  pub listed :
      All
        (λ i. (any_row (is_row i.0) ns ≡ true) × (o.store.encoding.loads i.0.envelope ≡ some i.1))
        items

pub IsTable-Appends :
    (o : Outside) (items : List (Notification × Value)) (db : Db) → Appends (IsTable o items db)
IsTable-Appends o items db m ns p apart t = record {
  distinct = DistinctNotes-Appends m ns p apart t.distinct;
  backed = All-append (IsBacked o db) ns m t.backed (λ closed. absurd (ground (arith, p, closed)));
  listed = All-mono _ _ (λ i h. (is_row-Appends i.0 m ns p apart h.0, h.1)) items t.listed;
}

-- More events back no less.
pub IsTable-monitor :
    (o : Outside) (items : List (Notification × Value)) (db db' : Db) (ns : List Notification)
    → ((n : Notification)
        → any_row (carries o n) db.events ≡ true
        → any_row (carries o n) db'.events ≡ true)
    → IsTable o items db ns
    → IsTable o items db' ns
IsTable-monitor o items db db' ns more t = record {
  distinct = t.distinct;
  backed = All-mono _ _ (λ n h closed. more n (h closed)) ns t.backed;
  listed = t.listed;
}

carries_fixed :
    (o : Outside) (n : Notification) (a b : Event)
    → a.id ≡ b.id
    → a.binding ≡ b.binding
    → a.envelope ≡ b.envelope
    → carries o n a ≡ carries o n b
carries_fixed o n a b i r v = λ k.
    encoded_as (wire o n.envelope) (v k)
    && (r k == n.original_binding && delivered_as (i k) n.delivery_id)

pub step-IsTable :
    (o : Outside) (items : List (Notification × Value)) (db : Db) (op : Op) (ns : List Notification)
    → IsTable o items db ns
    → IsTable o items (step o.receiver db op) ns
step-IsTable o items db op ns =
    IsTable-monitor o items db _ ns λ n. step-Has (carries o n) (carries_fixed o n) o.receiver db op

pub ingest-IsTable :
    (o : Outside) (items : List (Notification × Value)) (db db' : Db) (fresh : String) (now : ℕ)
    (binding : String) (v : Value) (r : Receipt) (ns : List Notification)
    → ingest o.receiver.codec o.receiver.limits fresh now binding v db ≡ ok (db', r)
    → IsTable o items db ns
    → IsTable o items db' ns
ingest-IsTable o items db db' fresh now binding v r ns e = IsTable-monitor o items db db' ns λ n h.
    subst (λ x. any_row (carries o n) (after_receipt db x).events ≡ true) e
      (ingest-Has (carries o n) (carries_fixed o n) o.receiver.codec o.receiver.limits fresh now
        binding v db h)

-- An update of the open rows of one id, which leaves the id, the binding and the envelope alone.
pub set-IsTable :
    (o : Outside) (items : List (Notification × Value)) (db : Db) (id : String)
    (f : Notification → Notification) (ns : List Notification)
    → ((m : Notification) → (f m).notification_id ≡ m.notification_id)
    → ((item m : Notification) → is_row item (f m) ≡ is_row item m)
    → All (λ m. open_notification id m ≡ true → IsBacked o db (f m)) ns
    → IsTable o items db ns
    → IsTable o items db (update_rows (open_notification id) f ns)
set-IsTable o items db id f ns same rows new t = record {
  distinct =
      subst Distinct
        (sym (
          map-update_rows (λ (n : Notification). n.notification_id) (open_notification id) f same
            ns))
        t.distinct;
  backed =
      All-update_to _ (IsBacked o db) (open_notification id) f (λ m hit h. h.0 hit) (λ m h. h.1) ns
        (All-× (λ m. open_notification id m ≡ true → IsBacked o db (f m)) (IsBacked o db) ns new
          t.backed);
  listed =
      All-mono _ _
        (λ i h.
          (any_row-update_rows (is_row i.0) (open_notification id) f (rows i.0) ns ∙ h.0, h.1))
        items t.listed;
}

-- The writes of a failure and of a deferral keep the row pending.
pub failed-IsTable :
    (o : Outside) (items : List (Notification × Value)) (db : Db) (now : ℕ) (id message : String)
    (retry : Option ℕ) (ns : List Notification)
    → IsTable o items db ns
    → IsTable o items db (update_rows (open_notification id) (failed_once now message retry) ns)
unfolding failed_once
failed-IsTable o items db now id message retry ns =
    set-IsTable o items db id (failed_once now message retry) ns (λ m. refl) (λ i m. refl)
      (All-always _ (λ m hit closed. absurd (ground arith)) ns)

pub postponed-IsTable :
    (o : Outside) (items : List (Notification × Value)) (db : Db) (now : ℕ) (id reason : String)
    (retry : ℕ) (ns : List Notification)
    → IsTable o items db ns
    → IsTable o items db (update_rows (open_notification id) (postponed now reason retry) ns)
unfolding postponed
postponed-IsTable o items db now id reason retry ns =
    set-IsTable o items db id (postponed now reason retry) ns (λ m. refl) (λ i m. refl)
      (All-always _ (λ m hit closed. absurd (ground arith)) ns)

-- The write of an acceptance, where the inbox has the item under the delivery id.
pub delivered-IsTable :
    (o : Outside) (items : List (Notification × Value)) (db : Db) (now : ℕ) (item : Notification)
    (v : Value) (delivery : String) (ns : List Notification)
    → any_row (is_row item) ns ≡ true
    → o.store.encoding.loads item.envelope ≡ some v
    → any_row
        (λ e.
          encoded_as (o.receiver.codec.compact v) e.envelope
          && (e.binding == item.original_binding && delivered_as e.id (some delivery)))
        db.events
      ≡ true
    → IsTable o items db ns
    → IsTable o items db
        (update_rows (open_notification item.notification_id) (delivered now delivery) ns)
delivered-IsTable o items db now item v delivery ns there loaded taken t =
    set-IsTable o items db item.notification_id (delivered now delivery) ns (λ m. refl)
      (λ i m. refl)
      (All-mono _ _ (λ m same hit closed. carried m (same (ground arith))) ns
        (is_row_unique item ns t.distinct there))
      t
  where
    carried :
        (m : Notification)
        → is_row item m ≡ true
        → any_row (carries o (delivered now delivery m)) db.events ≡ true
    carried m row =
        let b : m.original_binding ≡ item.original_binding =
          ground (arith, row, eq_iff m.original_binding item.original_binding) in
        let same : m.envelope ≡ item.envelope =
          ground (arith, row, eq_iff m.envelope item.envelope) in
        let x : wire o m.envelope ≡ o.receiver.codec.compact v =
          ap (λ s. wire_of o (o.store.encoding.loads s)) same ∙ ap (wire_of o) loaded in
        subst
          (λ y.
            any_row
              (λ e.
                encoded_as y e.envelope
                && (e.binding == m.original_binding && delivered_as e.id (some delivery)))
              db.events
            ≡ true)
          (sym x)
          (subst
            (λ y.
              any_row
                (λ e.
                  encoded_as (o.receiver.codec.compact v) e.envelope
                  && (e.binding == y && delivered_as e.id (some delivery)))
                db.events
              ≡ true)
            (sym b) taken)
