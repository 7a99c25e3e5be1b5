-- ===== src/Monitor/Capacity.antt =====
-- The bounds that `ingest` keeps: the open deliveries of a route, and the events of a trace.
use codex_monitor.Common.{
  ℕ, ◌≡◌, ◌≤◌, refl, String, Bool, true, false, some, List, [], ◌∷◌, arith, Bool-cases, inl, inr,
  eq_iff, count_rows, count_rows-append, count_rows-update_le, update_rows, Distinct-SameRow,
  SameRow, leb, ◌==◌, &&_split, ap,
}
use native.Mathlib.Nat.{le_trans}
use codex_monitor.Monitor.State.{Event, Db, Limits, is_active}
use codex_monitor.Monitor.Intake.{Header, with_id, active_on, new_event, insert_event}
use codex_monitor.Monitor.Dispatch.{
  Outcome, received, absent, raised, Resolution, accepts, replays, discards, set_event, next_due,
  expire, submit, reconciling,
}
use codex_monitor.Monitor.Machine.{Op, ingests, dispatches, crashes, resolves, Setup, step}
use codex_monitor.Monitor.Cases.{
  settled, resolved, ingest_cases, dispatch_cases, crash_cases, resolve_cases,
}
use codex_monitor.Monitor.Rules.{Unique, All-next_due}
use codex_monitor.Monitor.Frame.{events_unchanged}

-- No route holds more open deliveries than `max_pending`.
abbrev pub IsWithinQueue : Limits → Db → Type 0
IsWithinQueue l db = (binding : String) → count_rows (active_on binding) db.events ≤ l.max_pending

count_same :
    (q : Event → Bool) (row : Event) (f : Event → Event) (es : List Event)
    → SameRow (λ e. e.id) row es
    → (q (f row) ≡ true → q row ≡ true)
    → count_rows q (update_rows (with_id row.id) f es) ≤ count_rows q es
unfolding count_rows update_rows
count_same q row f [] s k = omega arith
count_same q row f (e ∷ es) s k = elim (Bool-cases (e.id == row.id)) [
  | inl t ↦
      let is_row : e ≡ row = s.0 t in rw (is_row) (ground (arith, count_same q row f es s.1 k))
  | inr t ↦ ground (arith, count_same q row f es s.1 k)
]

count_due :
    (q : Event → Bool) (now : ℕ) (db : Db) (row : Event) (f : Event → Event)
    → Unique db.events
    → next_due now db ≡ some row
    → (is_active row.state ≡ true → q (f row) ≡ true → q row ≡ true)
    → count_rows q (set_event row.id f db).events ≤ count_rows q db.events
count_due q now db row f unique due keep =
    let picked =
      All-next_due (λ e. SameRow (λ (x : Event). x.id) e db.events) now db
        (Distinct-SameRow (λ (e : Event). e.id) db.events unique) due in
    count_same q row f db.events picked.0 (keep (&&_split (is_active row.state) _ picked.1).0)

binding-settled :
    (l : Limits) (now later : ℕ) (row : Event) (o : Outcome) (e : Event)
    → (settled l now later row o e).binding ≡ e.binding
binding-settled l now later row (received s) e = refl
binding-settled l now later row absent e = ground arith
binding-settled l now later row (raised f m) e = refl

abbrev pub IsReplay : Op → Type 0
IsReplay op = elim op [ resolves _ _ replays _ ↦ Unit {0} | _ ↦ ⊥ ]

insert_within :
    (l : Limits) (fresh : String) (now : ℕ) (binding : String) (h : Header) (db : Db)
    → leb l.max_pending (count_rows (active_on binding) db.events) ≡ false
    → IsWithinQueue l db
    → IsWithinQueue l (insert_event fresh now binding h db)
unfolding insert_event
insert_within l fresh now binding h db room within b =
    let x = new_event db.next_seq fresh now binding h in
    let added = count_rows-append (active_on b) db.events x in
    elim (Bool-cases (binding == b)) [
      | inl t ↦
          let same = ap (λ k. count_rows (active_on k) db.events) ((eq_iff binding b).0 t) in
          ground (arith, added, same)
      | inr t ↦ ground (arith, added, within b)
    ]

resolved_within :
    (l : Limits) (now : ℕ) (id : String) (action : Resolution) (reason : String) (es : List Event)
    (b : String)
    → ¬ IsReplay (resolves now id action reason)
    → count_rows (active_on b) (update_rows (with_id id) (resolved now action) es)
      ≤ count_rows (active_on b) es
resolved_within l now id accepts reason es b ordinary =
    count_rows-update_le (active_on b) (with_id id) (resolved now accepts) (λ a p q. ground arith)
      es
resolved_within l now id discards reason es b ordinary =
    count_rows-update_le (active_on b) (with_id id) (resolved now discards) (λ a p q. ground arith)
      es
resolved_within l now id replays reason es b ordinary = absurd (ordinary tt)

-- Every operation but an operator's replay keeps the open deliveries of each route within
-- `max_pending`, where delivery ids are unique.
pub step-IsWithinQueue :
    (u : Setup) (db : Db) (op : Op)
    → Unique db.events
    → IsWithinQueue u.limits db
    → ¬ IsReplay op
    → IsWithinQueue u.limits (step u db op)
unfolding step
step-IsWithinQueue u db (ingests fresh now binding envelope) unique within ordinary =
    ingest_cases (IsWithinQueue u.limits) u.codec u.limits fresh now binding db within envelope
      λ h target valid found admitted.
        insert_within u.limits fresh now binding h db admitted.room within
step-IsWithinQueue u db (dispatches owner now later) unique within ordinary =
    dispatch_cases (IsWithinQueue u.limits) u.limits now db within
      (λ row due p b.
        le_trans (count_due (active_on b) now db row (expire now) unique due (λ a q. ground arith))
          (within b))
      owner later
      λ row o due b.
        le_trans
          (count_due (active_on b) now db row (settled u.limits now later row o) unique due
            (λ a q. ground (arith, binding-settled u.limits now later row o row)))
          (within b)
step-IsWithinQueue u db (crashes owner now called) unique within ordinary =
    crash_cases (IsWithinQueue u.limits) u.limits now db within
      (λ row due p b.
        le_trans (count_due (active_on b) now db row (expire now) unique due (λ a q. ground arith))
          (within b))
      λ row due b.
        le_trans
          (count_due (active_on b) now db row (submit now (reconciling row)) unique due
            (λ a q. ground arith))
          (within b)
step-IsWithinQueue u db (resolves now id action reason) unique within ordinary = λ b.
    resolve_cases (λ es. count_rows (active_on b) es ≤ u.limits.max_pending) u.blank now id action
      reason db (within b)
      λ row found may.
        le_trans (resolved_within u.limits now id action reason db.events b ordinary) (within b)
step-IsWithinQueue u db op unique within ordinary =
    λ b. rw (events_unchanged u db op refl) (within b)
