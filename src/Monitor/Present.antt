-- ===== src/Monitor/Present.antt =====
-- The rows of events stay in their table, with their ids, bindings and envelopes.
use codex_monitor.Common.{
  ℕ, inl, inr, Bool-cases, ◌≡◌, refl, ◌∙◌, String, Bool, true, any_row, any_row-append,
  any_row-update_rows,
}
use codex_monitor.Json.{Value}
use codex_monitor.Monitor.State.{Event, Db, Limits, Codec}
use codex_monitor.Monitor.Intake.{insert_event, ingest}
use codex_monitor.Monitor.Dispatch.{Outcome, received, absent, raised, expire, submit, reconciling}
use codex_monitor.Monitor.Machine.{
  Op, ingests, dispatches, crashes, resolves, Setup, step, after_receipt,
}
use codex_monitor.Monitor.Cases.{
  ingest_cases, dispatch_cases, crash_cases, resolve_cases, settled, resolved,
}
use codex_monitor.Monitor.Frame.{events_unchanged}

-- A test that reads only the columns that no operation writes.
abbrev pub IsFixed : (Event → Bool) → Type 0
IsFixed q =
    (a b : Event) → a.id ≡ b.id → a.binding ≡ b.binding → a.envelope ≡ b.envelope → q a ≡ q b

settled_fixed :
    (q : Event → Bool)
    → IsFixed q
    → (l : Limits) (now later : ℕ) (row : Event) (o : Outcome) (e : Event)
    → q (settled l now later row o e) ≡ q e
settled_fixed q fixed l now later row (received s) e = fixed _ _ refl refl refl
settled_fixed q fixed l now later row absent e = elim (Bool-cases (reconciling row)) [
  | inl h ↦ rw h (fixed _ _ refl refl refl)
  | inr h ↦ rw h (fixed _ _ refl refl refl)
]
settled_fixed q fixed l now later row (raised f m) e = fixed _ _ refl refl refl

module _ (q : Event → Bool) (fixed : IsFixed q) where
  abbrev Has : Db → Type 0
  Has d = any_row q d.events ≡ true

  pub ingest-Has :
      (codec : Codec) (l : Limits) (fresh : String) (now : ℕ) (binding : String) (envelope : Value)
      (db : Db)
      → Has db
      → Has (after_receipt db (ingest codec l fresh now binding envelope db))
  unfolding insert_event
  ingest-Has codec l fresh now binding envelope db there =
      ingest_cases Has codec l fresh now binding db there envelope
        λ h target valid found admitted. any_row-append q db.events _ there

  -- A row that passes such a test is in the table after any operation.
  pub step-Has : (u : Setup) (db : Db) (op : Op) → Has db → Has (step u db op)
  unfolding step
  step-Has u db (ingests fresh now binding envelope) there =
      ingest-Has u.codec u.limits fresh now binding envelope db there
  step-Has u db (dispatches owner now later) there =
      dispatch_cases Has u.limits now db there
        (λ row due p.
          any_row-update_rows q _ (expire now) (λ e. fixed _ _ refl refl refl) db.events ∙ there)
        owner later
        λ row outcome due.
          any_row-update_rows q _ (settled u.limits now later row outcome)
            (settled_fixed q fixed u.limits now later row outcome) db.events
          ∙ there
  step-Has u db (crashes owner now called) there =
      crash_cases Has u.limits now db there
        (λ row due p.
          any_row-update_rows q _ (expire now) (λ e. fixed _ _ refl refl refl) db.events ∙ there)
        λ row due.
          any_row-update_rows q _ (submit now (reconciling row)) (λ e. fixed _ _ refl refl refl)
            db.events
          ∙ there
  step-Has u db (resolves now other action reason) there =
      resolve_cases (λ es. any_row q es ≡ true) u.blank now other action reason db there
        λ row found may.
          any_row-update_rows q _ (resolved now action) (λ e. fixed _ _ refl refl refl) db.events
          ∙ there
  step-Has u db op there = rw (events_unchanged u db op refl) there
