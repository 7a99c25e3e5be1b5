-- ===== src/Monitor/Recalled.antt =====
-- An event that was taken stays known: no operation of the receiver forgets it.
use codex_monitor.Common.{
  ℕ, ◌≡◌, ◌≢◌, refl, ◌∙◌, ap, String, Bool, true, List, [], ◌∷◌, arith, Bool-cases, inl, inr, Finds,
  Finds-append, Finds-update, ok, err, bind_ok, member, ◌==◌, update_rows,
}
use codex_monitor.Json.{Value}
use codex_monitor.Monitor.State.{Binding, Event, Db, Limits}
use codex_monitor.Monitor.Intake.{
  Header, Receipt, same_event, named, with_id, insert_event, intake, validate, ingest,
}
use codex_monitor.Monitor.Dispatch.{Outcome, received, absent, raised, expire, submit, reconciling}
use codex_monitor.Monitor.Machine.{Op, ingests, dispatches, crashes, resolves, Setup, step, run}
use codex_monitor.Monitor.Cases.{
  ingest_cases, dispatch_cases, crash_cases, resolve_cases, settled, resolved,
}
use codex_monitor.Monitor.Frame.{events_unchanged}
use codex_monitor.Monitor.RouteTable.{Keeps, bindings-kept}
use codex_monitor.Monitor.Dedup.{IsTaken, intake-IsTaken, intake_again, intake_refused}

-- The columns by which a repetition is recognised and answered.
abbrev IsContent : String → String → Event → Type 0
IsContent encoded id e = (e.envelope ≡ encoded) × (e.id ≡ id)

abbrev Allows : String → Binding → Type 0
Allows source b = member source b.sources ≡ true

-- The event of the header is in the table, as delivery `id`, and its route takes its source.
pub record IsRecalled (binding : String) (h : Header) (id : String) (db : Db) : Type 0 where
  pub routes : Finds (named binding) (Allows h.source) db.bindings
  pub events : Finds (same_event binding h) (IsContent h.encoded id) db.events

pub IsRecalled-IsTaken :
    (binding : String) (h : Header) (id : String) (db : Db)
    → IsRecalled binding h id db
    → IsTaken binding h id db
IsRecalled-IsTaken binding h id db r = record {
  target = r.routes.row;
  event = r.events.row;
  routed = r.routes.found;
  allowed = r.routes.such;
  stored = r.events.found;
  content = r.events.such.0;
  receipt = r.events.such.1;
}

pub IsTaken-IsRecalled :
    (binding : String) (h : Header) (id : String) (db : Db)
    → IsTaken binding h id db
    → IsRecalled binding h id db
IsTaken-IsRecalled binding h id db t = record {
  routes = record { row = t.target; found = t.routed; such = t.allowed };
  events = record { row = t.event; found = t.stored; such = (t.content, t.receipt) };
}

Allows-Keeps : (binding source : String) → Keeps (Finds (named binding) (Allows source))
Allows-Keeps binding source = record {
  grow = λ b bs new f. Finds-append (named binding) (Allows source) bs _ f;
  update = λ p f bs safe g.
      Finds-update (named binding) (Allows source) p f (λ b. ap (λ n. n == binding) (safe.name b))
        (λ b h. rw (safe.sources b) h) bs g;
}

-- A rewriting of rows that leaves alone what identifies an event.
abbrev IsStill : (Event → Event) → Type 0
IsStill f =
    (e : Event)
    → ((f e).id ≡ e.id)
      × ((f e).binding ≡ e.binding)
      × ((f e).source ≡ e.source)
      × ((f e).event_id ≡ e.event_id)
      × ((f e).envelope ≡ e.envelope)

settled-IsStill :
    (l : Limits) (now later : ℕ) (row : Event) (o : Outcome) → IsStill (settled l now later row o)
settled-IsStill l now later row (received s) e = (refl, refl, refl, refl, refl)
settled-IsStill l now later row (raised f m) e = (refl, refl, refl, refl, refl)
settled-IsStill l now later row absent e = elim (Bool-cases (reconciling row)) [
  | inl t ↦ rw t (refl, refl, refl, refl, refl)
  | inr t ↦ rw t (refl, refl, refl, refl, refl)
]

module _ (binding : String) (h : Header) (id : String) where
  abbrev IsKnown : List Event → Type 0
  IsKnown = Finds (same_event binding h) (IsContent h.encoded id)

  IsKnown-update :
      (q : Event → Bool) (f : Event → Event) (es : List Event)
      → IsStill f
      → IsKnown es
      → IsKnown (update_rows q f es)
  IsKnown-update q f es still k =
      Finds-update (same_event binding h) (IsContent h.encoded id) q f
        (λ e. let s = still e in ground (arith, s)) (λ e c. ((still e).4 ∙ c.0, (still e).0 ∙ c.1))
        es k

  step-IsKnown : (u : Setup) (db : Db) (op : Op) → IsKnown db.events → IsKnown (step u db op).events
  unfolding step insert_event
  step-IsKnown u db (ingests fresh now b envelope) k =
      ingest_cases (λ d. IsKnown d.events) u.codec u.limits fresh now b db k envelope
        λ g target valid found admitted. Finds-append _ _ db.events _ k
  step-IsKnown u db (dispatches owner now later) k =
      dispatch_cases (λ d. IsKnown d.events) u.limits now db k
        (λ row due p.
          IsKnown-update (with_id row.id) (expire now) db.events
            (λ e. (refl, refl, refl, refl, refl)) k)
        owner later
        λ row o due.
          IsKnown-update (with_id row.id) _ db.events (settled-IsStill u.limits now later row o) k
  step-IsKnown u db (crashes owner now called) k =
      crash_cases (λ d. IsKnown d.events) u.limits now db k
        (λ row due p.
          IsKnown-update (with_id row.id) (expire now) db.events
            (λ e. (refl, refl, refl, refl, refl)) k)
        λ row due.
          IsKnown-update (with_id row.id) (submit now (reconciling row)) db.events
            (λ e. (refl, refl, refl, refl, refl)) k
  step-IsKnown u db (resolves now other action reason) k =
      resolve_cases IsKnown u.blank now other action reason db k λ row found may.
        IsKnown-update (with_id other) (resolved now action) db.events
          (λ e. (refl, refl, refl, refl, refl)) k
  step-IsKnown u db op k = rw (events_unchanged u db op refl) k

  pub step-IsRecalled :
      (u : Setup) (db : Db) (op : Op)
      → IsRecalled binding h id db
      → IsRecalled binding h id (step u db op)
  step-IsRecalled u db op r = record {
    routes = bindings-kept _ (Allows-Keeps binding h.source) u db op r.routes;
    events = step-IsKnown u db op r.events;
  }

  pub run-IsRecalled :
      (u : Setup) (db : Db) (ops : List Op)
      → IsRecalled binding h id db
      → IsRecalled binding h id (run u db ops)
  unfolding run
  run-IsRecalled u db [] r = r
  run-IsRecalled u db (op ∷ ops) r = run-IsRecalled u (step u db op) ops (step-IsRecalled u db op r)

-- What `ingest` took is recalled ever after.
pub run-IsTaken :
    (u : Setup) (fresh : String) (now : ℕ) (binding : String) (h : Header) (db db' : Db)
    (r : Receipt) (ops : List Op)
    → intake u.codec u.limits fresh now binding h db ≡ ok (db', r)
    → IsTaken binding h r.delivery_id (run u db' ops)
run-IsTaken u fresh now binding h db db' r ops e =
    IsRecalled-IsTaken binding h r.delivery_id (run u db' ops) (
      run-IsRecalled binding h r.delivery_id u db' ops (
        IsTaken-IsRecalled binding h r.delivery_id db'
          (intake-IsTaken u.codec u.limits fresh now binding h db db' r e)))

-- An event that `ingest` took, or knew already, is answered by the receipt of its first delivery
-- whenever it is sent again, and changes nothing: whatever operations came between, in any order,
-- with any crashes; the clock, the queue and the rate play no part, nor does a route that was
-- disabled or removed.
pub ingest-ingest_same :
    (u : Setup) (fresh later_fresh : String) (now later : ℕ) (binding : String) (envelope : Value)
    (db db' : Db) (r : Receipt) (ops : List Op)
    → ingest u.codec u.limits fresh now binding envelope db ≡ ok (db', r)
    → ingest u.codec u.limits later_fresh later binding envelope (run u db' ops)
      ≡ ok (run u db' ops, record { delivery_id = r.delivery_id; duplicate = true })
unfolding ingest
ingest-ingest_same u fresh later_fresh now later binding envelope db db' r ops e =
    let (h, valid, taken) = bind_ok (validate u.codec envelope) _ e in
    rw valid (
      intake_again u.codec u.limits later_fresh later binding h (run u db' ops)
        (run-IsTaken u fresh now binding h db db' r ops taken))

-- Once `ingest` has taken an event, and whatever operations followed, the same source's event of
-- the same ID but other content is refused with 409 by that binding.
pub ingest-conflict :
    (u : Setup) (fresh later_fresh : String) (now later : ℕ) (binding : String)
    (envelope altered : Value) (h other : Header) (db db' : Db) (r : Receipt) (ops : List Op)
    → ingest u.codec u.limits fresh now binding envelope db ≡ ok (db', r)
    → validate u.codec envelope ≡ ok h
    → validate u.codec altered ≡ ok other
    → other.id ≡ h.id
    → other.source ≡ h.source
    → other.encoded ≢ h.encoded
    → ingest u.codec u.limits later_fresh later binding altered (run u db' ops)
      ≡ err 409 "event ID already used for different content"
unfolding ingest
ingest-conflict u fresh later_fresh now later binding envelope altered h other db db' r ops e v w i
      s differs =
    rw w (
      intake_refused u.codec u.limits later_fresh later binding h other (run u db' ops)
        (run-IsTaken u fresh now binding h db db' r ops (rw v at e)) i s differs)
