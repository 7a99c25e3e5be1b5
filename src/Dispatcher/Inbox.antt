-- ===== src/Dispatcher/Inbox.antt =====
-- The inbox of the process is written by operations of the receiver only.
use codex_monitor.Common.{
  ℕ, suc, ◌≡◌, refl, Bool, ◌||◌, List, [], ◌∷◌, inl, inr, Result, ok, err, bind_ok, Bool-cases,
  find_row,
}
use codex_monitor.Json.{Value}
use codex_monitor.Monitor.State.{Binding, Db}
use codex_monitor.Monitor.Intake.{Receipt, named, ingest}
use codex_monitor.Monitor.Machine as Receiver
use codex_monitor.Requests.State.{Notification, Store}
use codex_monitor.Requests.Updates.{Reply}
use codex_monitor.Dispatcher.{
  World, Outside, Other, at_monitor, at_requests, Round, returned, raised, died, Pumped, interfere,
  interfere_all, check_original, take_in, written, acknowledged, handed, paused, relay, onward,
  relay_all, listed, any_reply, after_expiry, pump,
}
use codex_monitor.Dispatcher.Machine.{Op, pumps, others, step, run}

module _ (o : Outside) (P : Db → Type 0)
    (keep : (db : Db) (op : Receiver.Op) → P db → P (Receiver.step o.receiver db op)) where
  abbrev Inbox : World → Type 0
  Inbox w = P w.monitor

  interfere-Inbox : (w : World) (other : Other) → Inbox w → Inbox (interfere o w other)
  interfere-Inbox w (at_monitor op) h = keep w.monitor op h
  interfere-Inbox w (at_requests op) h = h

  interfere_all-Inbox : (w : World) (xs : List Other) → Inbox w → Inbox (interfere_all o w xs)
  unfolding interfere_all
  interfere_all-Inbox w [] h = h
  interfere_all-Inbox w (x ∷ xs) h =
      interfere_all-Inbox (interfere o w x) xs (interfere-Inbox w x h)

  written-Inbox : (w : World) (a : Result Store) → Inbox w → Inbox (written w a).0
  written-Inbox w (ok db) h = h
  written-Inbox w (err c m) h = h

  acknowledged-Inbox :
      (w : World) (a : Result (Store × Bool)) → Inbox w → Inbox (acknowledged w a).0
  acknowledged-Inbox w (ok (db, b)) h = h
  acknowledged-Inbox w (err c m) h = h

  ingest-Inbox :
      (r : Round) (item : Notification) (v : Value) (db db' : Db) (receipt : Receipt)
      → ingest o.receiver.codec o.receiver.limits r.fresh r.taken_at item.original_binding v db
        ≡ ok (db', receipt)
      → P db
      → P db'
  unfolding Receiver.step
  ingest-Inbox r item v db db' receipt e h =
      let stepped : P (
          Receiver.after_receipt db (
            ingest o.receiver.codec o.receiver.limits r.fresh r.taken_at item.original_binding v
              db)) =
        keep db (Receiver.ingests r.fresh r.taken_at item.original_binding v) h in
      rw e at stepped

  module _ (r : Round) (bindings : List Binding) (item : Notification) (v : Value) (w : World) where
    handed-Inbox :
        (a : Result (Db × Receipt))
        → take_in o r item v (find_row (named item.original_binding) bindings) w.monitor ≡ a
        → Inbox w
        → Inbox (handed o r item w a).0
    handed-Inbox (err c m) e h = written-Inbox w _ h
    handed-Inbox (ok (db, receipt)) e h =
        let (_, original, taken) =
          bind_ok (check_original item v (find_row (named item.original_binding) bindings)) _ e in
        let got = ingest-Inbox r item v w.monitor db receipt taken h in
        elim (Bool-cases r.survives) [
          | inl t ↦ rw t (acknowledged-Inbox (record w { monitor = db }) _ got)
          | inr t ↦ rw t got
        ]

    relay-Inbox : Inbox w → Inbox (relay o r bindings (item, v) w).0
    unfolding relay
    relay-Inbox h = elim (Bool-cases (paused (find_row (named item.original_binding) bindings))) [
      | inl t ↦ rw t (written-Inbox w _ h)
      | inr t ↦ rw t (handed-Inbox _ refl h)
    ]

  onward-Inbox :
      (p : Pumped) (processed : Bool) (next : Bool → World → Pumped)
      → Inbox p.0
      → ((b : Bool) (w : World) → Inbox w → Inbox (next b w).0)
      → Inbox (onward p processed next).0
  onward-Inbox (w, returned b) processed next h f = f (processed || b) w h
  onward-Inbox (w, raised c m) processed next h f = h
  onward-Inbox (w, died) processed next h f = h

  relay_all-Inbox :
      (rounds : ℕ → Round) (k : ℕ) (bindings : List Binding) (items : List (Notification × Value))
      (processed : Bool) (w : World)
      → Inbox w
      → Inbox (relay_all o rounds k bindings items processed w).0
  unfolding relay_all
  relay_all-Inbox rounds k bindings [] processed w h = h
  relay_all-Inbox rounds k bindings ((item, v) ∷ items) processed w h =
      onward-Inbox _ processed _
        (relay-Inbox (rounds k) bindings item v (interfere_all o w (rounds k).meanwhile)
          (interfere_all-Inbox w (rounds k).meanwhile h))
        λ b w'. relay_all-Inbox rounds (suc k) bindings items b w'

  listed-Inbox :
      (rounds : ℕ → Round) (expired : Bool) (w : World) (a : Result (List (Notification × Value)))
      → Inbox w
      → Inbox (listed o rounds expired w a).0
  listed-Inbox rounds expired w (err c m) h = h
  listed-Inbox rounds expired w (ok items) h =
      relay_all-Inbox rounds 0 w.monitor.bindings items expired w h

  after_expiry-Inbox :
      (batch now : ℕ) (rounds : ℕ → Round) (w : World) (a : Result (Store × List Reply))
      → Inbox w
      → Inbox (after_expiry o batch now rounds w a).0
  after_expiry-Inbox batch now rounds w (err c m) h = h
  after_expiry-Inbox batch now rounds w (ok (db, replies)) h =
      listed-Inbox rounds (any_reply replies) (record w { requests = db }) _ h

  step-Inbox : (w : World) (op : Op) → Inbox w → Inbox (step o w op)
  unfolding step pump
  step-Inbox w (pumps batch expired_at listed_at rounds) h =
      after_expiry-Inbox batch listed_at rounds w _ h
  step-Inbox w (others other) h = interfere-Inbox w other h

  -- What every operation of the receiver keeps, the process keeps.
  pub run-Inbox : (w : World) (ops : List Op) → Inbox w → Inbox (run o w ops)
  unfolding run
  run-Inbox w [] h = h
  run-Inbox w (op ∷ ops) h = run-Inbox (step o w op) ops (step-Inbox w op h)
