-- ===== src/Monitor/Once.antt =====
-- A delivery is handed to an owner once, unless the owner refused it or an operator replays it.
use codex_monitor.Common.{
  ℕ, ◌≡◌, refl, String, Bool, true, false, Option, none, some, List, [], ◌∷◌, arith, All,
  Bool-cases, inl, inr, eq_iff, any_row, All-of_any_row, update_rows, ◌==◌, ◌&&◌,
}
use codex_monitor.Monitor.State.{Event, Db, Limits, is_pending}
use codex_monitor.Monitor.Intake.{with_id}
use codex_monitor.Monitor.Dispatch.{
  Owner, Outcome, raised, unavailable, retryable, permanent, delivers, next_due, reconciling,
  after_failure, settle_row, submit_to, submit_on, too_old, claim, claim_of, finish, route_of,
  target_thread, target_endpoint, dispatch_once,
}
use codex_monitor.Monitor.Machine.{
  Op, ingests, dispatches, crashes, Setup, after_claim, step, calls, all_calls,
}
use codex_monitor.Monitor.Rules.{Unique, All-next_due}
use codex_monitor.Monitor.Steps.{step-Unique}
use codex_monitor.Monitor.Replay.{may_have, IsHeld, Unresolved, Delivers, held_run, step_present}

-- The owner said that it does not have the event.
abbrev pub refuses : Outcome → Bool
refuses (raised unavailable _) = true
refuses (raised retryable _) = true
refuses (raised permanent _) = true
refuses _ = false

-- An owner that never refuses: it takes the event, or leaves open whether it did.
abbrev pub NeverRefuses : Owner → Type 0
NeverRefuses owner =
    (endpoint thread client text : String)
    → refuses (owner.deliver endpoint thread client text) ≡ false

-- A dispatch to such an owner, or a receiver that dies after its call, whatever the owner did.
abbrev pub IsUnclear : Op → Type 0
IsUnclear (dispatches owner _ _) = NeverRefuses owner
IsUnclear (crashes _ _ _) = Unit
IsUnclear _ = ⊥

settled_may_have :
    (l : Limits) (later : ℕ) (row : Event) (o : Outcome) (e : Event)
    → reconciling row ≡ false
    → refuses o ≡ false
    → may_have (settle_row l later row o e).state ≡ true
unfolding after_failure
settled_may_have l later row o e fresh unclear = ground arith

IsHeld-update :
    (id other : String) (f : Event → Event) (es : List Event)
    → other ≡ id
    → ((e : Event) → may_have (f e).state ≡ true)
    → All (IsHeld id) (update_rows (with_id other) f es)
unfolding update_rows
IsHeld-update id other f [] same h = tt
IsHeld-update id other f (e ∷ es) same h =
    let rest = IsHeld-update id other f es same h in
    elim (Bool-cases (e.id == other)) [
      | inl t ↦ rw t (λ _. h e, rest)
      | inr t ↦ rw t (λ hit. absurd (ground (arith, eq_iff e.id id, eq_iff e.id other)), rest)
    ]

delivers_inv :
    (owner : Owner) (thread endpoint : String) (row : Event) (id : String)
    → (submit_to owner thread endpoint row).1 ≡ delivers id ∷ []
    → (row.id ≡ id)
      × (reconciling row ≡ false)
      × ((submit_to owner thread endpoint row).0
          ≡ owner.deliver endpoint thread row.client_id (owner.render row))
unfolding submit_to
delivers_inv owner thread endpoint row id e = go (owner.connect endpoint) e
  where
    go :
        (o : Option Outcome)
        → (submit_on o owner thread endpoint row).1 ≡ delivers id ∷ []
        → (row.id ≡ id)
          × (reconciling row ≡ false)
          × ((submit_on o owner thread endpoint row).0
              ≡ owner.deliver endpoint thread row.client_id (owner.render row))
    go (some failed) h = cc
    go none h = ground arith

-- What the owner says to the delivery of the row that is due.
abbrev pub answer_to : Owner → Db → Event → Outcome
answer_to owner db row =
    owner.deliver (target_endpoint (route_of row db)) (target_thread (route_of row db))
      row.client_id (owner.render row)

-- A delivery that was not refused is held.
pub dispatch-IsHeld :
    (owner : Owner) (l : Limits) (now later : ℕ) (db : Db) (id : String)
    → ((row : Event) → next_due now db ≡ some row → refuses (answer_to owner db row) ≡ false)
    → (dispatch_once owner l now later db).2 ≡ delivers id ∷ []
    → All (IsHeld id) (dispatch_once owner l now later db).0.events
unfolding dispatch_once
dispatch-IsHeld owner l now later db id unclear = go (next_due now db) refl
  where
    go :
        (o : Option Event)
        → next_due now db ≡ o
        → (finish owner l later (claim_of l now db o) db).2 ≡ delivers id ∷ []
        → All (IsHeld id) (finish owner l later (claim_of l now db o) db).0.events
    go none f h = cc
    go (some row) f h = elim (Bool-cases (is_pending row.state && too_old l now row)) [
      | inl t ↦ cc
      | inr t ↦ rw t (
          let route = route_of row db in
          let inv =
            delivers_inv owner (target_thread route) (target_endpoint route) row id (rw t at h) in
          IsHeld-update id row.id _ _ inv.0
            λ e. settled_may_have l later row _ e inv.1 (rw inv.2 (unclear row f)))
    ]

crash-IsHeld :
    (owner : Owner) (l : Limits) (now : ℕ) (db : Db) (id : String)
    → (dispatch_once owner l now now db).2 ≡ delivers id ∷ []
    → All (IsHeld id) (after_claim db (claim l now db)).events
unfolding dispatch_once claim
crash-IsHeld owner l now db id = go (next_due now db)
  where
    go :
        (o : Option Event)
        → (finish owner l now (claim_of l now db o) db).2 ≡ delivers id ∷ []
        → All (IsHeld id) (after_claim db (claim_of l now db o)).events
    go none h = cc
    go (some row) h = elim (Bool-cases (is_pending row.state && too_old l now row)) [
      | inl t ↦ cc
      | inr t ↦ rw t (
          let route = route_of row db in
          let inv =
            delivers_inv owner (target_thread route) (target_endpoint route) row id (rw t at h) in
          IsHeld-update id row.id _ db.events inv.0 λ e. refl)
    ]

op-IsHeld :
    (u : Setup) (db : Db) (op : Op) (id : String)
    → IsUnclear op
    → calls u db op ≡ delivers id ∷ []
    → All (IsHeld id) (step u db op).events
unfolding calls step
op-IsHeld u db (dispatches owner now later) id unclear e =
    dispatch-IsHeld owner u.limits now later db id (λ row f. unclear _ _ _ _) e
op-IsHeld u db (crashes owner now true) id unclear e = crash-IsHeld owner u.limits now db id e
op-IsHeld u db (crashes owner now false) id unclear e = cc
op-IsHeld u db (ingests a b c d) id unclear e = elim unclear [ ]
op-IsHeld u db _ id unclear e = cc

due_present :
    (now : ℕ) (db : Db) (row : Event) (id : String)
    → next_due now db ≡ some row
    → row.id ≡ id
    → any_row (with_id id) db.events ≡ true
due_present now db row id due same = elim (Bool-cases (any_row (with_id id) db.events)) [
  | inl t ↦ t
  | inr t ↦
      let picked =
        All-next_due (λ a. (a.id == id) ≡ false) now db (All-of_any_row (with_id id) db.events t)
          due in
      absurd (ground (arith, picked.0, eq_iff row.id id))
]

pub dispatch_present :
    (owner : Owner) (l : Limits) (now later : ℕ) (db : Db) (id : String)
    → (dispatch_once owner l now later db).2 ≡ delivers id ∷ []
    → any_row (with_id id) db.events ≡ true
unfolding dispatch_once
dispatch_present owner l now later db id = go (next_due now db) refl
  where
    go :
        (o : Option Event)
        → next_due now db ≡ o
        → (finish owner l later (claim_of l now db o) db).2 ≡ delivers id ∷ []
        → any_row (with_id id) db.events ≡ true
    go none due h = cc
    go (some row) due h = elim (Bool-cases (is_pending row.state && too_old l now row)) [
      | inl t ↦ cc
      | inr t ↦
          let route = route_of row db in
          due_present now db row id due
            (delivers_inv owner (target_thread route) (target_endpoint route) row id (rw t at h)).0
    ]

op_present :
    (u : Setup) (db : Db) (op : Op) (id : String)
    → IsUnclear op
    → calls u db op ≡ delivers id ∷ []
    → any_row (with_id id) db.events ≡ true
unfolding calls
op_present u db (dispatches owner now later) id unclear e =
    dispatch_present owner u.limits now later db id e
op_present u db (crashes owner now true) id unclear e =
    dispatch_present owner u.limits now now db id e
op_present u db (crashes owner now false) id unclear e = cc
op_present u db (ingests a b c d) id unclear e = elim unclear [ ]
op_present u db _ id unclear e = cc

-- Delivered at most once: where delivery ids are unique, and an operation hands an event to an
-- owner that does not refuse it (a dispatch, or a receiver that dies after the call, whatever the
-- owner did), no operations that follow, in any order, with any owners, clocks and crashes, hand
-- the same event to an owner again, unless an operator resolves that delivery.
pub delivered_once :
    (u : Setup) (db : Db) (op : Op) (ops : List Op) (id : String)
    → Unique db.events
    → IsUnclear op
    → calls u db op ≡ delivers id ∷ []
    → Unresolved id ops
    → All (λ c. ¬ Delivers id c) (all_calls u (step u db op) ops)
delivered_once u db op ops id unique unclear e free =
    held_run u (step u db op) ops id (step-Unique u db op unique)
      (step_present u db op id (op_present u db op id unclear e)) (op-IsHeld u db op id unclear e)
      free
