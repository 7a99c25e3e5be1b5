-- ===== src/Monitor/Traces.antt =====
-- The budget of a trace: how many events of one trace are ever stored.
use codex_monitor.Common.{
  ℕ, ◌+◌, ◌≡◌, ◌≤◌, refl, sym, String, false, Option, none, some, List, [], ◌∷◌, ◌++◌, arith,
  Bool-cases, inl, inr, eq_iff, count_rows, count_rows-append, count_rows-congr, ◌==◌,
  if◌then◌else◌, ap, Option-cases, ok,
}
use codex_monitor.Json.{Value, null, object}
use codex_monitor.Monitor.State.{Event, Db, Limits, Codec}
use codex_monitor.Monitor.Intake.{
  Header, with_id, has_trace, trace_full, new_event, insert_event, validate,
}
use codex_monitor.Monitor.Dispatch.{Outcome, received, absent, raised, expire, submit, reconciling}
use codex_monitor.Monitor.Machine.{Op, ingests, dispatches, crashes, resolves, Setup, step, run}
use codex_monitor.Monitor.Cases.{
  settled, resolved, ingest_cases, dispatch_cases, crash_cases, resolve_cases,
}
use codex_monitor.Monitor.Frame.{events_unchanged}

-- The stored text of a valid envelope gives back the trace that the header holds.
validate_trace :
    (codec : Codec) (envelope : Value) (h : Header)
    → validate codec envelope ≡ ok h
    → codec.trace_of h.encoded ≡ h.trace_id
unfolding validate
validate_trace codec (object fs) h e = elim (Option-cases (codec.compact (object fs))) [
  | inl t ↦ absurd (ground arith)
  | inr (s, t) ↦ ground (arith, codec.trace_of-compact fs s t)
]
validate_trace codec null h e = cc
validate_trace codec _ h e = cc

envelope-settled :
    (l : Limits) (now later : ℕ) (row : Event) (o : Outcome) (e : Event)
    → (settled l now later row o e).envelope ≡ e.envelope
envelope-settled l now later row (received s) e = refl
envelope-settled l now later row absent e = ground arith
envelope-settled l now later row (raised f m) e = refl

insert_traced :
    (codec : Codec) (l : Limits) (fresh : String) (now : ℕ) (binding : String) (h : Header)
    (db : Db) (trace : String)
    → (trace == "") ≡ false
    → codec.trace_of h.encoded ≡ h.trace_id
    → trace_full codec l h.trace_id db ≡ false
    → count_rows (has_trace codec trace) db.events ≤ l.trace_limit
    → count_rows (has_trace codec trace) (insert_event fresh now binding h db).events
      ≤ l.trace_limit
unfolding insert_event
insert_traced codec l fresh now binding h db trace nonempty reads room within =
    go h.trace_id (sym reads) room
  where
    added :
        count_rows
          (has_trace codec trace)
          (db.events ++ new_event db.next_seq fresh now binding h ∷ [])
        ≡ count_rows (has_trace codec trace) db.events
          + (if has_trace codec trace (new_event db.next_seq fresh now binding h) then 1 else 0)
    added = count_rows-append (has_trace codec trace) db.events _

    go :
        (o : Option String)
        → o ≡ codec.trace_of h.encoded
        → trace_full codec l o db ≡ false
        → count_rows
            (has_trace codec trace)
            (db.events ++ new_event db.next_seq fresh now binding h ∷ [])
          ≤ l.trace_limit
    go none e f = ground (arith, added)
    go (some t) e f = elim (Bool-cases (t == trace)) [
      | inl y ↦
          let same = ap (λ k. count_rows (has_trace codec k) db.events) ((eq_iff t trace).0 y) in
          ground (arith, added, same, eq_iff t trace)
      | inr n ↦ ground (arith, added)
    ]

step_traced :
    (u : Setup) (db : Db) (op : Op) (trace : String)
    → (trace == "") ≡ false
    → count_rows (has_trace u.codec trace) db.events ≤ u.limits.trace_limit
    → count_rows (has_trace u.codec trace) (step u db op).events ≤ u.limits.trace_limit
unfolding step
step_traced u db (ingests fresh now binding envelope) trace nonempty within =
    ingest_cases (λ d. count_rows (has_trace u.codec trace) d.events ≤ u.limits.trace_limit) u.codec
      u.limits fresh now binding db within envelope
      λ h target valid found admitted.
        insert_traced u.codec u.limits fresh now binding h db trace nonempty
          (validate_trace u.codec envelope h valid) admitted.traced within
step_traced u db (dispatches owner now later) trace nonempty within =
    dispatch_cases (λ d. count_rows (has_trace u.codec trace) d.events ≤ u.limits.trace_limit)
      u.limits now db within
      (λ row due p.
        rw
          (count_rows-congr (has_trace u.codec trace) (with_id row.id) (expire now) (λ e. refl)
            db.events)
          within)
      owner later
      λ row o due.
        rw
          (count_rows-congr (has_trace u.codec trace) (with_id row.id)
            (settled u.limits now later row o)
            (λ e.
              ap (λ s. elim (u.codec.trace_of s) [ none ↦ false | some t ↦ t == trace ])
                (envelope-settled u.limits now later row o e))
            db.events)
          within
step_traced u db (crashes owner now called) trace nonempty within =
    crash_cases (λ d. count_rows (has_trace u.codec trace) d.events ≤ u.limits.trace_limit) u.limits
      now db within
      (λ row due p.
        rw
          (count_rows-congr (has_trace u.codec trace) (with_id row.id) (expire now) (λ e. refl)
            db.events)
          within)
      λ row due.
        rw
          (count_rows-congr (has_trace u.codec trace) (with_id row.id)
            (submit now (reconciling row)) (λ e. refl) db.events)
          within
step_traced u db (resolves now id action reason) trace nonempty within =
    resolve_cases (λ es. count_rows (has_trace u.codec trace) es ≤ u.limits.trace_limit) u.blank now
      id action reason db within
      λ row found may.
        rw
          (count_rows-congr (has_trace u.codec trace) (with_id id) (resolved now action) (λ e. refl)
            db.events)
          within
step_traced u db op trace nonempty within = rw (events_unchanged u db op refl) within

-- Whatever happens, replays by an operator included, no more than `trace_limit` events of one
-- (nonempty) trace are ever stored, if no more were stored before.
pub run_traced :
    (u : Setup) (db : Db) (ops : List Op) (trace : String)
    → (trace == "") ≡ false
    → count_rows (has_trace u.codec trace) db.events ≤ u.limits.trace_limit
    → count_rows (has_trace u.codec trace) (run u db ops).events ≤ u.limits.trace_limit
unfolding run
run_traced u db [] trace nonempty within = within
run_traced u db (op ∷ ops) trace nonempty within =
    run_traced u (step u db op) ops trace nonempty (step_traced u db op trace nonempty within)
