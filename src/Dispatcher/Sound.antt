-- ===== src/Dispatcher/Sound.antt =====
-- Every step of the process keeps the accepted notifications backed by events.
use codex_monitor.Common.{
  ℕ, ◌≡◌, refl, sym, subst, String, Bool, none, List, [], ◌∷◌, inl, inr, Bool-cases, Result, ok,
  err, bind_ok, All, find_row,
}
use codex_monitor.Json.{Value}
use codex_monitor.Monitor.State.{Binding, Db}
use codex_monitor.Monitor.Intake.{Receipt, named, ingest}
use codex_monitor.Requests.State.{Notification, Store}
use codex_monitor.Requests.Outbox.{
  second, notification_accepted, notification_error, notification_deferred,
}
use codex_monitor.Requests.Reserved.{UniqueRequests}
use codex_monitor.Requests.Grown.{IsClient, step_grown}
use codex_monitor.Requests.Kept.{Unique_kept, step_kept}
use codex_monitor.Requests.Drained.{
  notification_accepted_writes, notification_error_writes, notification_deferred_writes,
}
use codex_monitor.Requests.Posted.{Appends-Grown}
use codex_monitor.Dispatcher.{
  World, Outside, Other, at_monitor, at_requests, Round, interfere, interfere_all, check_original,
  written, acknowledged, handed, paused, relay,
}
use codex_monitor.Dispatcher.Machine.{Op, pumps, others}
use codex_monitor.Dispatcher.Backed.{
  ingest_carries, IsTable, IsTable-Appends, step-IsTable, ingest-IsTable, failed-IsTable,
  postponed-IsTable, delivered-IsTable,
}

-- The other threads leave the outbox to the dispatcher.
abbrev pub IsClientOther : Other → Type 0
IsClientOther (at_monitor op) = Unit
IsClientOther (at_requests op) = IsClient op

abbrev pub IsProper : Op → Type 0
IsProper (pumps batch expired_at listed_at rounds) =
    (k : ℕ) → All IsClientOther (rounds k).meanwhile
IsProper (others other) = IsClientOther other

pub record IsSound (o : Outside) (items : List (Notification × Value)) (w : World) : Type 0 where
  pub unique : UniqueRequests w.requests
  pub table : IsTable o items w.monitor w.requests.notifications

module _ (o : Outside) where
  pub interfere-IsSound :
      (items : List (Notification × Value)) (w : World) (other : Other)
      → IsClientOther other
      → IsSound o items w
      → IsSound o items (interfere o w other)
  interfere-IsSound items w (at_monitor op) asks s = record {
    unique = s.unique;
    table = step-IsTable o items w.monitor op w.requests.notifications s.table;
  }
  interfere-IsSound items w (at_requests op) asks s = record {
    unique =
        step_kept o.store UniqueRequests (Unique_kept o.store.capacity) w.requests op s.unique
          s.unique;
    table =
        step_grown o.store (λ db. IsTable o items w.monitor db.notifications)
          (Appends-Grown o.store.capacity (IsTable o items w.monitor)
            (IsTable-Appends o items w.monitor))
          w.requests op asks s.unique s.table;
  }

  pub interfere_all-IsSound :
      (items : List (Notification × Value)) (w : World) (rest : List Other)
      → All IsClientOther rest
      → IsSound o items w
      → IsSound o items (interfere_all o w rest)
  unfolding interfere_all
  interfere_all-IsSound items w [] asks s = s
  interfere_all-IsSound items w (other ∷ rest) asks s =
      interfere_all-IsSound items (interfere o w other) rest asks.1
        (interfere-IsSound items w other asks.0 s)

  written-IsSound :
      (items : List (Notification × Value)) (w : World) (r : Result Store)
      → IsSound o items w
      → ((db : Store) → r ≡ ok db → IsSound o items (record w { requests = db }))
      → IsSound o items (written w r).0
  written-IsSound items w (ok db) s f = f db refl
  written-IsSound items w (err c m) s f = s

  acknowledged-IsSound :
      (items : List (Notification × Value)) (w : World) (r : Result (Store × Bool))
      → IsSound o items w
      → ((db : Store) (b : Bool) → r ≡ ok (db, b) → IsSound o items (record w { requests = db }))
      → IsSound o items (acknowledged w r).0
  acknowledged-IsSound items w (ok (db, b)) s f = f db b refl
  acknowledged-IsSound items w (err c m) s f = s

  failed-IsSound :
      (items : List (Notification × Value)) (w : World) (now : ℕ) (id message : String) (db : Store)
      → IsSound o items w
      → notification_error o.store.blank now id message none w.requests ≡ ok db
      → IsSound o items (record w { requests = db })
  failed-IsSound items w now id message db s e =
      subst (λ d. IsSound o items (record w { requests = d }))
        (sym (notification_error_writes o.store.blank now id message none w.requests db e))
        (record {
          unique = s.unique;
          table =
              failed-IsTable o items w.monitor now id message none w.requests.notifications s.table;
        })

  deferred-IsSound :
      (items : List (Notification × Value)) (w : World) (now : ℕ) (id reason : String) (retry : ℕ)
      (db : Store)
      → IsSound o items w
      → notification_deferred o.store.blank now id reason retry w.requests ≡ ok db
      → IsSound o items (record w { requests = db })
  deferred-IsSound items w now id reason retry db s e =
      subst (λ d. IsSound o items (record w { requests = d }))
        (sym (notification_deferred_writes o.store.blank now id reason retry w.requests db e))
        (record {
          unique = s.unique;
          table =
              postponed-IsTable o items w.monitor now id reason retry w.requests.notifications
                s.table;
        })

  -- An item that the table has, after the inbox took its envelope.
  accepted-IsSound :
      (items : List (Notification × Value)) (item : Notification) (v : Value) (w : World)
      (r : Round) (monitor : Db) (receipt : Receipt) (db : Store) (b : Bool)
      → ingest o.receiver.codec o.receiver.limits r.fresh r.taken_at item.original_binding v
          w.monitor
        ≡ ok (monitor, receipt)
      → IsSound o ((item, v) ∷ items) w
      → IsSound o ((item, v) ∷ items) (record w { monitor = monitor })
      → notification_accepted r.written_at item.notification_id receipt.delivery_id w.requests
        ≡ ok (db, b)
      → IsSound o ((item, v) ∷ items) (record { monitor = monitor; requests = db })
  accepted-IsSound items item v w r monitor receipt db b taken s s1 e =
      elim (notification_accepted_writes r.written_at item.notification_id receipt.delivery_id
        w.requests db b e) [
          | inl same ↦
              subst
                (λ d. IsSound o ((item, v) ∷ items) (record { monitor = monitor; requests = d }))
                (sym same) s1
          | inr writes ↦
              subst
                (λ d. IsSound o ((item, v) ∷ items) (record { monitor = monitor; requests = d }))
                (sym writes)
                (record {
                  unique = s.unique;
                  table =
                      delivered-IsTable o ((item, v) ∷ items) monitor r.written_at item v
                        receipt.delivery_id w.requests.notifications s.table.listed.0.0
                        s.table.listed.0.1
                        (ingest_carries o.receiver.codec o.receiver.limits r.fresh r.taken_at
                          item.original_binding v w.monitor monitor receipt taken)
                        s1.table;
                })
        ]

  handed-IsSound :
      (items : List (Notification × Value)) (item : Notification) (v : Value) (w : World)
      (r : Round) (answer : Result (Db × Receipt))
      → ((monitor : Db) (receipt : Receipt)
          → answer ≡ ok (monitor, receipt)
          → ingest o.receiver.codec o.receiver.limits r.fresh r.taken_at item.original_binding v
              w.monitor
            ≡ ok (monitor, receipt))
      → IsSound o ((item, v) ∷ items) w
      → IsSound o ((item, v) ∷ items) (handed o r item w answer).0
  handed-IsSound items item v w r (err c m) f s = written-IsSound ((item, v) ∷ items) w _ s λ db e.
      failed-IsSound ((item, v) ∷ items) w r.written_at item.notification_id (o.excerpt m) db s e
  handed-IsSound items item v w r (ok (monitor, receipt)) f s =
      let taken = f monitor receipt refl in
      let s1 : IsSound o ((item, v) ∷ items) (record w { monitor = monitor }) = record {
        unique = s.unique;
        table =
            ingest-IsTable o ((item, v) ∷ items) w.monitor monitor r.fresh r.taken_at
              item.original_binding v receipt w.requests.notifications taken s.table;
      } in
      elim (Bool-cases r.survives) [
        | inr dies ↦ rw dies s1
        | inl lives ↦ rw lives (
            acknowledged-IsSound ((item, v) ∷ items) (record w { monitor = monitor }) _ s1
              λ db b e. accepted-IsSound items item v w r monitor receipt db b taken s s1 e)
      ]

  pub relay-IsSound :
      (items : List (Notification × Value)) (item : Notification) (v : Value) (w : World)
      (r : Round) (bindings : List Binding)
      → IsSound o ((item, v) ∷ items) w
      → IsSound o ((item, v) ∷ items) (relay o r bindings (item, v) w).0
  unfolding relay
  relay-IsSound items item v w r bindings s =
      elim (Bool-cases (paused (find_row (named item.original_binding) bindings))) [
        | inl p ↦ rw p (
            written-IsSound ((item, v) ∷ items) w _ s λ db e.
              deferred-IsSound ((item, v) ∷ items) w r.written_at item.notification_id
                "original binding is paused" second db s e)
        | inr p ↦ rw p (
            handed-IsSound items item v w r _
              (λ monitor receipt e.
                let (_, _, e1) =
                  bind_ok (check_original item v (find_row (named item.original_binding) bindings))
                    _ e in
                e1)
              s)
      ]
