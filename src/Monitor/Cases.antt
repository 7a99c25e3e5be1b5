-- ===== src/Monitor/Cases.antt =====
-- What each operation of the machine does to the tables, as a rule for any property of them: the
-- tables are left alone, or changed in one stated way under the conditions that the code checked.
use codex_monitor.Common.{
  ℕ, ◌≡◌, refl, String, Bool, true, false, ◌&&◌, Option, none, some, List, inl, inr, arith, ◌>>=◌,
  ◌>>◌, require, member, ◌==◌, Result, ok, err, find_row, any_row, count_rows, update_rows,
  update_rows-update_rows, Bool-cases, leb, subst, ap, sym,
}
use codex_monitor.Json.{Value}
use codex_monitor.Monitor.State.{Binding, Event, Db, Limits, Codec, is_pending}
use codex_monitor.Monitor.Intake.{
  Header, Receipt, same_event, named, with_id, known_or_new, routed, active_on, trace_full,
  insert_event, admit, intake, validate, ingest,
}
use codex_monitor.Monitor.Dispatch.{
  Owner, Outcome, Resolution, next_due, set_event, expire, submit, settle_row, reconciling, too_old,
  claim, claim_of, finish, resolve_checked, settle, dispatch_once, resolve, resolvable,
  resolved_state,
}
use codex_monitor.Monitor.Machine.{after, after_receipt, after_claim}

-- What `admit` has checked when it takes an event.
pub record IsAdmitted (codec : Codec) (l : Limits) (fresh binding : String) (h : Header)
    (target : Binding) (db : Db) : Type 0 where
  pub enabled : target.enabled ≡ true
  pub live : target.removed ≡ false
  pub room : leb l.max_pending (count_rows (active_on binding) db.events) ≡ false
  pub traced : trace_full codec l h.trace_id db ≡ false
  pub new_id : any_row (with_id fresh) db.events ≡ false

admit-IsAdmitted :
    (codec : Codec) (l : Limits) (fresh : String) (now : ℕ) (binding : String) (h : Header)
    (target : Binding) (db db' : Db) (r : Receipt)
    → admit codec l fresh now binding h target db ≡ ok (db', r)
    → (db' ≡ insert_event fresh now binding h db) × IsAdmitted codec l fresh binding h target db
unfolding admit
admit-IsAdmitted codec l fresh now binding h target db db' r e = (
  ground arith,
  record {
    enabled = ground arith;
    live = ground arith;
    room = ground arith;
    traced = ground arith;
    new_id = ground arith;
  },
)

module _ {ℓ} (P : Db → Type ℓ) (codec : Codec) (l : Limits) (fresh : String) (now : ℕ)
    (binding : String) (db : Db) (same : P db) where
  after_admit :
      (h : Header) (target : Binding) (r : Result (Db × Receipt))
      → admit codec l fresh now binding h target db ≡ r
      → (IsAdmitted codec l fresh binding h target db → P (insert_event fresh now binding h db))
      → P (after_receipt db r)
  after_admit h target (ok (db', r)) e new =
      let (inserted, admitted) = admit-IsAdmitted codec l fresh now binding h target db db' r e in
      rw inserted (new admitted)
  after_admit h target (err c m) e new = same

  after_routed :
      (h : Header) (o : Option Binding)
      → find_row (named binding) db.bindings ≡ o
      → ((target : Binding)
          → find_row (named binding) db.bindings ≡ some target
          → IsAdmitted codec l fresh binding h target db
          → P (insert_event fresh now binding h db))
      → P (after_receipt db (routed codec l fresh now binding h db o))
  unfolding routed
  after_routed h none e new = same
  after_routed h (some t) e new =
      allowed (member h.source t.sources) (find_row (same_event binding h) db.events)
    where
      allowed :
          (b : Bool) (o : Option Event)
          → P (
              after_receipt db (
                require b 403 "source is not allowed for this binding"
                >> known_or_new codec l fresh now binding h t db o))
      allowed false o = same
      allowed true none = after_admit h t _ refl (new t e)
      allowed true (some x) = elim (Bool-cases (x.envelope == h.encoded)) [
        | inl y ↦ rw y same
        | inr n ↦ rw n same
      ]

  pub intake_cases :
      (h : Header)
      → ((target : Binding)
          → find_row (named binding) db.bindings ≡ some target
          → IsAdmitted codec l fresh binding h target db
          → P (insert_event fresh now binding h db))
      → P (after_receipt db (intake codec l fresh now binding h db))
  unfolding intake
  intake_cases h = after_routed h _ refl

  after_validate :
      (envelope : Value) (v : Result Header)
      → validate codec envelope ≡ v
      → ((h : Header) (target : Binding)
          → validate codec envelope ≡ ok h
          → find_row (named binding) db.bindings ≡ some target
          → IsAdmitted codec l fresh binding h target db
          → P (insert_event fresh now binding h db))
      → P (after_receipt db (v >>= λ h. intake codec l fresh now binding h db))
  after_validate envelope (ok h) e new = intake_cases h (λ t. new h t e)
  after_validate envelope (err c m) e new = same

  pub ingest_cases :
      (envelope : Value)
      → ((h : Header) (target : Binding)
          → validate codec envelope ≡ ok h
          → find_row (named binding) db.bindings ≡ some target
          → IsAdmitted codec l fresh binding h target db
          → P (insert_event fresh now binding h db))
      → P (after_receipt db (ingest codec l fresh now binding envelope db))
  unfolding ingest
  ingest_cases envelope new = after_validate envelope (validate codec envelope) refl new

-- The claim committed and then its outcome written, as one update of the claimed row.
abbrev pub settled : Limits → ℕ → ℕ → Event → Outcome → Event → Event
settled l now later row outcome e = settle_row l later row outcome (submit now (reconciling row) e)

module _ {ℓ} (P : Db → Type ℓ) (l : Limits) (now : ℕ) (db : Db) (same : P db)
    (old : (row : Event)
      → next_due now db ≡ some row
      → is_pending row.state ≡ true
      → P (set_event row.id (expire now) db)) where
  pub dispatch_cases :
      (owner : Owner) (later : ℕ)
      → ((row : Event) (outcome : Outcome)
          → next_due now db ≡ some row
          → P (set_event row.id (settled l now later row outcome) db))
      → P (dispatch_once owner l now later db).0
  unfolding dispatch_once
  dispatch_cases owner later done = go (next_due now db) refl
    where
      both :
          (row : Event) (outcome : Outcome)
          → set_event row.id (settled l now later row outcome) db
            ≡ settle l later row outcome (set_event row.id (submit now (reconciling row)) db)
      both row outcome =
          ap (λ es. record db { events = es })
            (sym (
              update_rows-update_rows (with_id row.id) (submit now (reconciling row))
                (settle_row l later row outcome) (λ a. refl) db.events))

      go :
          (o : Option Event)
          → next_due now db ≡ o
          → P (finish owner l later (claim_of l now db o) db).0
      go none due = same
      go (some row) due = elim (Bool-cases (is_pending row.state && too_old l now row)) [
        | inl t ↦ rw t (old row due (ground arith))
        | inr t ↦ rw t (subst P (both row _) (done row _ due))
      ]

  pub crash_cases :
      ((row : Event)
        → next_due now db ≡ some row
        → P (set_event row.id (submit now (reconciling row)) db))
      → P (after_claim db (claim l now db))
  unfolding claim
  crash_cases left = go (next_due now db) refl
    where
      go : (o : Option Event) → next_due now db ≡ o → P (after_claim db (claim_of l now db o))
      go none due = same
      go (some row) due = elim (Bool-cases (is_pending row.state && too_old l now row)) [
        | inl t ↦ rw t (old row due (ground arith))
        | inr t ↦ rw t (left row due)
      ]

-- `resolve` rewrites the rows of one delivery that is uncertain or dead.
abbrev pub resolved : ℕ → Resolution → Event → Event
resolved now action e = record e {
  state = resolved_state action;
  error = none;
  attempts = 0;
  next_at = 0;
  created = now;
  updated = now;
}

pub resolve_cases {ℓ} :
    (P : List Event → Type ℓ) (blank : String → Bool) (now : ℕ) (id : String) (action : Resolution)
    (reason : String) (db : Db)
    → P db.events
    → ((row : Event)
        → find_row (with_id id) db.events ≡ some row
        → resolvable row.state ≡ true
        → P (update_rows (with_id id) (resolved now action) db.events))
    → P (after db (resolve blank now id action reason db)).events
unfolding resolve
resolve_cases P blank now id action reason db same done = go (blank reason) _ refl
  where
    go :
        (b : Bool) (o : Option Event)
        → find_row (with_id id) db.events ≡ o
        → P (after db (resolve_checked b o now id action reason db)).events
    go true o e = same
    go false none e = same
    go false (some row) e = elim (Bool-cases (resolvable row.state)) [
      | inl t ↦ rw t (done row e t)
      | inr t ↦ rw t same
    ]
