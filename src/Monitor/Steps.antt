-- ===== src/Monitor/Steps.antt =====
-- The rules of Rules put together: one operation of any kind, and any sequence of them.
use codex_monitor.Common.{
  ℕ, ◌≡◌, refl, String, Bool, false, List, [], ◌∷◌, ◌++◌, subst, sym, arith, All, Distinct,
  Distinct-insert, map-update_rows, any_row, update_rows,
}
use codex_monitor.Monitor.State.{Event, Db, Limits}
use codex_monitor.Monitor.Intake.{Header, with_id, new_event, insert_event}
use codex_monitor.Monitor.Dispatch.{Outcome, expire, submit, reconciling}
use codex_monitor.Monitor.Machine.{Op, ingests, dispatches, crashes, resolves, Setup, step}
use codex_monitor.Monitor.Rules.{Unique, Kept, kept_ingest, kept_dispatch, kept_crash, kept_resolve}
use codex_monitor.Monitor.Frame.{events_unchanged}
use codex_monitor.Monitor.Dispatch.{received, absent, raised}
use codex_monitor.Monitor.Cases.{
  ingest_cases, settled, dispatch_cases, crash_cases, resolved, resolve_cases,
}

module _ {κ} (P : Event → Type κ) (u : Setup) (db : Db) where
  pub step-All :
      (op : Op) → Unique db.events → All P db.events → Kept u db op P → All P (step u db op).events
  step-All (ingests fresh now binding envelope) unique all k =
      kept_ingest P u db unique all fresh now binding envelope k
  step-All (dispatches owner now later) unique all k =
      kept_dispatch P u db unique all owner now later k
  step-All (crashes owner now called) unique all k = kept_crash P u db unique all owner now called k
  step-All (resolves now id action reason) unique all k =
      kept_resolve P u db unique all now id action reason k
  step-All op unique all k = rw (events_unchanged u db op refl) all

Unique-append :
    (db : Db) (seq : ℕ) (fresh : String) (now : ℕ) (binding : String) (h : Header)
    → Unique db.events
    → any_row (with_id fresh) db.events ≡ false
    → Unique (db.events ++ new_event seq fresh now binding h ∷ [])
Unique-append db seq fresh now binding h =
    Distinct-insert (λ (e : Event). e.id) db.events (new_event seq fresh now binding h)

Unique-set :
    (p : Event → Bool) (f : Event → Event)
    → ((e : Event) → (f e).id ≡ e.id)
    → (es : List Event) → Unique es
    → Unique (update_rows p f es)
Unique-set p f same es = subst Distinct (sym (map-update_rows (λ (e : Event). e.id) p f same es))

-- The settled row keeps its id.
pub id-settled :
    (l : Limits) (now later : ℕ) (row : Event) (o : Outcome) (e : Event)
    → (settled l now later row o e).id ≡ e.id
id-settled l now later row (received s) e = refl
id-settled l now later row absent e = ground arith
id-settled l now later row (raised f m) e = refl

-- Every operation keeps the delivery ids unique.
pub step-Unique : (u : Setup) (db : Db) (op : Op) → Unique db.events → Unique (step u db op).events
unfolding step insert_event
step-Unique u db (ingests fresh now binding envelope) unique =
    ingest_cases (λ d. Unique d.events) u.codec u.limits fresh now binding db unique envelope
      λ h target valid found admitted.
        Unique-append db db.next_seq fresh now binding h unique admitted.new_id
step-Unique u db (dispatches owner now later) unique =
    dispatch_cases (λ d. Unique d.events) u.limits now db unique
      (λ row due p. Unique-set _ (expire now) (λ e. refl) db.events unique) owner later
      λ row outcome due. Unique-set _ _ (id-settled u.limits now later row outcome) db.events unique
step-Unique u db (crashes owner now called) unique =
    crash_cases (λ d. Unique d.events) u.limits now db unique
      (λ row due p. Unique-set _ (expire now) (λ e. refl) db.events unique)
      λ row due. Unique-set _ (submit now (reconciling row)) (λ e. refl) db.events unique
step-Unique u db (resolves now id action reason) unique =
    resolve_cases Unique u.blank now id action reason db unique
      λ row found may. Unique-set _ (resolved now action) (λ e. refl) db.events unique
step-Unique u db op unique = subst Unique (sym (events_unchanged u db op refl)) unique
