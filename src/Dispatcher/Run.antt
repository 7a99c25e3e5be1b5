-- ===== src/Dispatcher/Run.antt =====
-- Whatever pumps, deaths and other threads do, an accepted notification is in the inbox.
use codex_monitor.Common.{
  ℕ, suc, ◌≡◌, refl, subst, Bool, true, ◌||◌, ◌&&◌, some, List, [], ◌∷◌, arith, inl, inr, Result,
  ok, err, bind_ok, require_ok, Option-cases, All, All-mono, All-take, All-select_rows, leb,
  select_rows, take, any_row,
}
use codex_monitor.Json.{Value}
use codex_monitor.Monitor.State.{Binding}
use codex_monitor.Requests.State.{Notification, Store}
use codex_monitor.Requests.Updates.{Reply}
use codex_monitor.Requests.Outbox.{ready, sort_due, pending_notifications}
use codex_monitor.Requests.Reserved.{UniqueRequests}
use codex_monitor.Requests.Grown.{expire_due_kept}
use codex_monitor.Requests.Kept.{Unique_kept, grown_of}
use codex_monitor.Requests.Delivery.{sort_due-All}
use codex_monitor.Requests.Posted.{Appends-Grown, is_row, self_rows}
use codex_monitor.Dispatcher.{
  World, Outside, Round, returned, raised, died, Pumped, interfere_all, relay, onward, relay_all,
  notification_values, decoded, listed, any_reply, after_expiry, pump,
}
use codex_monitor.Dispatcher.Machine.{Op, pumps, others, step, run}
use codex_monitor.Dispatcher.Backed.{IsTable, IsTable-Appends}
use codex_monitor.Dispatcher.Sound.{
  IsClientOther, IsProper, IsSound, interfere-IsSound, interfere_all-IsSound, relay-IsSound,
}

ok_items :
    (a b : List (Notification × Value))
    → ◌≡◌ {A = Result (List (Notification × Value))} (ok a) (ok b)
    → a ≡ b
ok_items a b e = cc

module _ (o : Outside) where
  with_items :
      (items kept : List (Notification × Value)) (w : World)
      → All
          (λ i.
            (any_row (is_row i.0) w.requests.notifications ≡ true)
            × (o.store.encoding.loads i.0.envelope ≡ some i.1))
          kept
      → IsSound o items w
      → IsSound o kept w
  with_items items kept w there s = record {
    unique = s.unique;
    table = record { distinct = s.table.distinct; backed = s.table.backed; listed = there };
  }

  onward-IsSound :
      (i : Notification × Value) (items : List (Notification × Value)) (p : Pumped)
      (processed : Bool) (next : Bool → World → Pumped)
      → IsSound o (i ∷ items) p.0
      → ((b : Bool) (w : World) → IsSound o items w → IsSound o [] (next b w).0)
      → IsSound o [] (onward p processed next).0
  onward-IsSound i items (w, returned b) processed next s f =
      f (processed || b) w (with_items (i ∷ items) items w s.table.listed.1 s)
  onward-IsSound i items (w, raised c m) processed next s f = with_items (i ∷ items) [] w tt s
  onward-IsSound i items (w, died) processed next s f = with_items (i ∷ items) [] w tt s

  relay_all-IsSound :
      (rounds : ℕ → Round) (bindings : List Binding)
      → ((k : ℕ) → All IsClientOther (rounds k).meanwhile)
      → (items : List (Notification × Value)) (k : ℕ) (processed : Bool) (w : World)
      → IsSound o items w
      → IsSound o [] (relay_all o rounds k bindings items processed w).0
  unfolding relay_all
  relay_all-IsSound rounds bindings proper [] k processed w s = s
  relay_all-IsSound rounds bindings proper ((item, v) ∷ items) k processed w s =
      let met = interfere_all-IsSound o ((item, v) ∷ items) w (rounds k).meanwhile (proper k) s in
      onward-IsSound (item, v) items
        (relay o (rounds k) bindings (item, v) (interfere_all o w (rounds k).meanwhile)) processed _
        (relay-IsSound o items item v (interfere_all o w (rounds k).meanwhile) (rounds k) bindings
          met)
        λ b w'. relay_all-IsSound rounds bindings proper items (suc k) b w'

  values_there :
      (db : Store) (ns : List Notification) (items : List (Notification × Value))
      → All (λ n. any_row (is_row n) db.notifications ≡ true) ns
      → notification_values o.store.encoding ns ≡ ok items
      → All
          (λ i.
            (any_row (is_row i.0) db.notifications ≡ true)
            × (o.store.encoding.loads i.0.envelope ≡ some i.1))
          items
  unfolding notification_values
  values_there db [] items h e = let same : [] ≡ items = ground arith in subst (All _) same tt
  values_there db (n ∷ ns) items h e = elim (Option-cases (o.store.encoding.loads n.envelope)) [
    | inl broken ↦ absurd (ground (arith, broken, e))
    | inr (v, loaded) ↦
        let e1 : decoded n (some v) (notification_values o.store.encoding ns) ≡ ok items =
          rw loaded at e in
        let (rest, values, e2) = bind_ok (notification_values o.store.encoding ns) _ e1 in
        let same : (n, v) ∷ rest ≡ items = ok_items ((n, v) ∷ rest) items e2 in
        subst (All _) same ((h.0, loaded), values_there db ns rest h.1 values)
  ]

  pending_there :
      (batch now : ℕ) (db : Store) (ns : List Notification)
      → pending_notifications batch now db ≡ ok ns
      → All (λ n. any_row (is_row n) db.notifications ≡ true) ns
  unfolding pending_notifications
  pending_there batch now db ns e =
      let (_, e1) =
        require_ok (leb 1 batch && leb batch 100) 400 "notification limit must be 1..100" _ e in
      let there = λ (n : Notification). any_row (is_row n) db.notifications ≡ true in
      let chosen = select_rows (ready now db) db.notifications in
      let same : take batch (sort_due chosen) ≡ ns = ground arith in
      subst (All there) same (
        All-take there batch (sort_due chosen) (
          sort_due-All there chosen (
            All-mono _ there (λ n h. h.0) chosen
              (All-select_rows there (ready now db) db.notifications
                (self_rows db.notifications)))))

  listed-IsSound :
      (rounds : ℕ → Round) (expired : Bool) (w : World) (r : Result (List (Notification × Value)))
      → ((k : ℕ) → All IsClientOther (rounds k).meanwhile)
      → ((items : List (Notification × Value))
          → r ≡ ok items
          → All
              (λ i.
                (any_row (is_row i.0) w.requests.notifications ≡ true)
                × (o.store.encoding.loads i.0.envelope ≡ some i.1))
              items)
      → IsSound o [] w
      → IsSound o [] (listed o rounds expired w r).0
  listed-IsSound rounds expired w (err c m) proper f s = s
  listed-IsSound rounds expired w (ok items) proper f s =
      relay_all-IsSound rounds w.monitor.bindings proper items 0 expired w
        (with_items [] items w (f items refl) s)

  after_expiry-IsSound :
      (batch now : ℕ) (rounds : ℕ → Round) (w : World) (r : Result (Store × List Reply))
      → ((k : ℕ) → All IsClientOther (rounds k).meanwhile)
      → ((db : Store) (replies : List Reply)
          → r ≡ ok (db, replies)
          → IsSound o [] (record w { requests = db }))
      → IsSound o [] w
      → IsSound o [] (after_expiry o batch now rounds w r).0
  after_expiry-IsSound batch now rounds w (err c m) proper f s = s
  after_expiry-IsSound batch now rounds w (ok (db, replies)) proper f s =
      listed-IsSound rounds (any_reply replies) (record w { requests = db }) _ proper
        (λ items e.
          let (ns, pending, e1) = bind_ok (pending_notifications batch now db) _ e in
          values_there db ns items (pending_there batch now db ns pending) e1)
        (f db replies refl)

  pump-IsSound :
      (batch expired_at listed_at : ℕ) (rounds : ℕ → Round) (w : World)
      → ((k : ℕ) → All IsClientOther (rounds k).meanwhile)
      → IsSound o [] w
      → IsSound o [] (pump o batch expired_at listed_at rounds w).0
  unfolding pump
  pump-IsSound batch expired_at listed_at rounds w proper s =
      after_expiry-IsSound batch listed_at rounds w _ proper
        (λ db replies e. record {
          unique =
              expire_due_kept o.store UniqueRequests (grown_of (Unique_kept o.store.capacity))
                expired_at batch w.requests db replies s.unique s.unique e;
          table =
              expire_due_kept o.store (λ d. IsTable o [] w.monitor d.notifications)
                (Appends-Grown o.store.capacity (IsTable o [] w.monitor)
                  (IsTable-Appends o [] w.monitor))
                expired_at batch w.requests db replies s.unique s.table e;
        })
        s

  step-IsSound : (w : World) (op : Op) → IsProper op → IsSound o [] w → IsSound o [] (step o w op)
  unfolding step
  step-IsSound w (pumps batch expired_at listed_at rounds) proper s =
      pump-IsSound batch expired_at listed_at rounds w proper s
  step-IsSound w (others other) proper s = interfere-IsSound o [] w other proper s

-- A notification that is marked as accepted stands in the inbox of the receiver: some event has its
-- delivery id, its binding and its envelope. This holds after any pumps, with deaths of the process
-- between the two databases, and any operations of other threads in between, if these leave the
-- outbox to the dispatcher, and if it held at the start, with unique ids of requests and of
-- notifications.
pub run-IsSound :
    (o : Outside) (w : World) (ops : List Op)
    → All IsProper ops
    → IsSound o [] w
    → IsSound o [] (run o w ops)
unfolding run
run-IsSound o w [] proper s = s
run-IsSound o w (op ∷ ops) proper s =
    run-IsSound o (step o w op) ops proper.1 (step-IsSound o w op proper.0 s)
