-- ===== src/Monitor/Rules.antt =====
-- Delivery ids stay unique, and a property of single events is kept by every operation if each
-- write of an event keeps it.
use codex_monitor.Common.{
  ℕ, ◌≡◌, refl, String, Bool, true, false, none, some, List, [], ◌∷◌, map, subst, sym, All,
  All-append, All-×, All-find_row, All-select_rows, Distinct, Distinct-SameRow, any_row,
  find_row-hit, update_rows, Bool-cases, inl, inr, SameRow, ◌==◌, &&_split, eq_iff, Option,
}
use codex_monitor.Json.{Value}
use codex_monitor.Monitor.State.{Event, Db, is_active, is_pending}
use codex_monitor.Monitor.Intake.{Header, with_id, new_event, insert_event}
use codex_monitor.Monitor.Dispatch.{
  Owner, Outcome, Resolution, first_in_order, earlier, next_due, is_due, before, set_event, expire,
  submit, reconciling, resolvable,
}
use codex_monitor.Monitor.Machine.{Op, ingests, dispatches, crashes, resolves, Setup, step}
use codex_monitor.Monitor.Cases.{
  ingest_cases, settled, dispatch_cases, crash_cases, resolved, resolve_cases,
}

abbrev pub Unique : List Event → Type 0
Unique es = Distinct (map (λ e. e.id) es)

module _ {κ} (P : Event → Type κ) where
  earlier_All :
      (x : Event) (o : Option Event) → P x → ((f : Event) → o ≡ some f → P f) → P (earlier x o)
  earlier_All x none h k = h
  earlier_All x (some f) h k = elim (Bool-cases (before x f)) [
    | inl t ↦ rw t h
    | inr t ↦ rw t (k f refl)
  ]

  All-first_in_order :
      (es : List Event) {row : Event} → All P es → first_in_order es ≡ some row → P row
  unfolding first_in_order
  All-first_in_order [] h e = cc
  All-first_in_order (x ∷ es) {row} h e =
      let picked : earlier x (first_in_order es) ≡ row = cc in
      subst P picked (earlier_All x (first_in_order es) h.0 (λ f r. All-first_in_order es h.1 r))

module _ {κ} (P : Event → Type κ) where
  -- The row that dispatch picks is one of the table's, and it is due.
  pub All-next_due :
      (now : ℕ) (db : Db) {row : Event}
      → All P db.events
      → next_due now db ≡ some row
      → P row × (is_due now db row ≡ true)
  unfolding next_due
  All-next_due now db h e =
      All-first_in_order (λ a. P a × (is_due now db a ≡ true)) _
        (All-select_rows P (is_due now db) db.events h) e

  pub All-update_same :
      (row : Event) (f : Event → Event) (es : List Event)
      → SameRow (λ e. e.id) row es
      → All P es
      → P (f row)
      → All P (update_rows (with_id row.id) f es)
  unfolding update_rows
  All-update_same row f [] s h k = tt
  All-update_same row f (e ∷ es) s h k =
      let rest = All-update_same row f es s.1 h.1 k in
      elim (Bool-cases (e.id == row.id)) [
        | inl t ↦ rw t (subst (λ a. P (f a)) (sym (s.0 t)) k, rest)
        | inr t ↦ rw t (h.0, rest)
      ]

module _ {κ} (P : Event → Type κ) where
  -- An update of the row that dispatch picked.
  pub All-set_due :
      (now : ℕ) (db : Db) (row : Event) (f : Event → Event)
      → Unique db.events
      → All P db.events
      → next_due now db ≡ some row
      → (is_active row.state ≡ true → P row → P (f row))
      → All P (set_event row.id f db).events
  All-set_due now db row f unique all due keep =
      let same = Distinct-SameRow (λ (e : Event). e.id) db.events unique in
      let picked =
        All-next_due (λ e. SameRow (λ (x : Event). x.id) e db.events × P e) now db
          (All-× _ P db.events same all) due in
      All-update_same P row f db.events picked.0.0 all (keep (&&_split _ _ picked.1).0 picked.0.1)

-- What the writes of an operation have to keep. A delivery id that is drawn is in no row yet.
pub record Kept {κ} (u : Setup) (db : Db) (op : Op) (P : Event → Type κ) : Type κ where
  pub on_new :
      (seq : ℕ) (fresh : String) (now : ℕ) (binding : String) (h : Header)
      → any_row (with_id fresh) db.events ≡ false
      → P (new_event seq fresh now binding h)
  pub on_expire : (now : ℕ) (e : Event) → is_pending e.state ≡ true → P e → P (expire now e)
  pub on_submit :
      (now : ℕ) (e : Event) → is_active e.state ≡ true → P e → P (submit now (reconciling e) e)
  pub on_settle :
      (now later : ℕ) (e : Event) (outcome : Outcome)
      → is_active e.state ≡ true
      → P e
      → P (settled u.limits now later e outcome e)
  pub on_resolve :
      (now : ℕ) (id reason : String) (action : Resolution) (e : Event)
      → op ≡ resolves now id action reason
      → (e.id == id) ≡ true
      → resolvable e.state ≡ true
      → P e
      → P (resolved now action e)

module _ {κ} (P : Event → Type κ) (u : Setup) (db : Db) (unique : Unique db.events)
    (all : All P db.events) where
  pub kept_ingest :
      (fresh : String) (now : ℕ) (binding : String) (envelope : Value)
      → Kept u db (ingests fresh now binding envelope) P
      → All P (step u db (ingests fresh now binding envelope)).events
  unfolding step insert_event
  kept_ingest fresh now binding envelope k =
      ingest_cases (λ d. All P d.events) u.codec u.limits fresh now binding db all envelope
        λ h target valid found admitted.
          All-append P db.events _ all (k.on_new db.next_seq fresh now binding h admitted.new_id)

  kept_expire :
      (now : ℕ) (op : Op)
      → Kept u db op P
      → (row : Event) → next_due now db ≡ some row
      → is_pending row.state ≡ true
      → All P (set_event row.id (expire now) db).events
  kept_expire now op k row due p =
      All-set_due P now db row (expire now) unique all due (λ a. k.on_expire now row p)

  pub kept_dispatch :
      (owner : Owner) (now later : ℕ)
      → Kept u db (dispatches owner now later) P
      → All P (step u db (dispatches owner now later)).events
  unfolding step
  kept_dispatch owner now later k =
      dispatch_cases (λ d. All P d.events) u.limits now db all (kept_expire now _ k) owner later
        λ row outcome due.
          All-set_due P now db row _ unique all due (k.on_settle now later row outcome)

  pub kept_crash :
      (owner : Owner) (now : ℕ) (called : Bool)
      → Kept u db (crashes owner now called) P
      → All P (step u db (crashes owner now called)).events
  unfolding step
  kept_crash owner now called k =
      crash_cases (λ d. All P d.events) u.limits now db all (kept_expire now _ k)
        λ row due. All-set_due P now db row _ unique all due (k.on_submit now row)

  pub kept_resolve :
      (now : ℕ) (id : String) (action : Resolution) (reason : String)
      → Kept u db (resolves now id action reason) P
      → All P (step u db (resolves now id action reason)).events
  unfolding step
  kept_resolve now id action reason k =
      resolve_cases (All P) u.blank now id action reason db all λ row found may.
        let hit = find_row-hit (with_id id) db.events found in
        let picked =
          All-find_row (λ e. SameRow (λ (x : Event). x.id) e db.events × P e) (with_id id) db.events
            (All-× _ P db.events (Distinct-SameRow (λ (e : Event). e.id) db.events unique) all)
            found in
        rw (← (eq_iff row.id id).0 hit) (
          All-update_same P row (resolved now action) db.events picked.0 all
            (k.on_resolve now id reason action row refl hit may picked.1))
