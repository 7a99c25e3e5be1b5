-- ===== src/Monitor/Replay.antt =====
-- No blind replay: what becomes of a delivery that an owner may have accepted.
use codex_monitor.Common.{
  ℕ, ◌≡◌, refl, String, Bool, true, false, Option, none, some, List, [], ◌∷◌, ◌++◌, arith, All,
  Bool-cases, inl, inr, eq_iff, any_row, ◌==◌, ap, ◌&&◌, &&_split,
}
use codex_monitor.Monitor.State.{
  Event, EventState, submitting, uncertain, accepted, Db, Limits, is_active, is_pending,
}
use codex_monitor.Monitor.Intake.{with_id}
use codex_monitor.Monitor.Dispatch.{
  Owner, Outcome, received, absent, raised, Call, delivers, reconciles, next_due, reconciling,
  after_failure, submit_to, submit_on, too_old, dispatch_once, claim_of, finish,
}
use codex_monitor.Monitor.Machine.{Op, dispatches, crashes, resolves, Setup, step, calls, all_calls}
use codex_monitor.Monitor.Cases.{settled}
use codex_monitor.Monitor.Rules.{Unique, Kept, All-next_due}
use codex_monitor.Monitor.Present.{step-Has}
use codex_monitor.Monitor.Steps.{step-All, step-Unique}

-- The owner may have the delivery.
abbrev pub may_have : EventState → Bool
may_have submitting = true
may_have uncertain = true
may_have accepted = true
may_have _ = false

abbrev pub IsHeld : String → Event → Type 0
IsHeld id e = (e.id == id) ≡ true → may_have e.state ≡ true

abbrev pub Resolves : String → Op → Type 0
Resolves id op = elim op [ resolves _ other _ _ ↦ (other == id) ≡ true | _ ↦ ⊥ ]

-- No operation of the list is an operator's `resolve` of this delivery.
abbrev pub Unresolved : String → List Op → Type 0
Unresolved id = All (λ op. ¬ Resolves id op)

abbrev pub Delivers : String → Call → Type 0
Delivers id (delivers other) = (other == id) ≡ true
Delivers id (reconciles other) = ⊥

IsHeld-settled :
    (l : Limits) (id : String) (now later : ℕ) (e : Event) (o : Outcome)
    → is_active e.state ≡ true
    → IsHeld id e
    → IsHeld id (settled l now later e o e)
unfolding after_failure
IsHeld-settled l id now later e (received s) a h = λ _. refl
IsHeld-settled l id now later e absent a h = λ same. ground arith
IsHeld-settled l id now later e (raised f m) a h = λ same. ground (arith, h same)

IsHeld-kept :
    (u : Setup) (db : Db) (op : Op) (id : String)
    → any_row (with_id id) db.events ≡ true
    → ¬ Resolves id op
    → Kept u db op (IsHeld id)
IsHeld-kept u db op id there free = record {
  on_new = λ seq fresh now binding h new same. absurd (ground (arith, eq_iff fresh id));
  on_expire = λ now e p h same. ground (arith, h same);
  on_submit = λ now e a h same. refl;
  on_settle = λ now later e o a h. IsHeld-settled u.limits id now later e o a h;
  on_resolve = λ now other reason action e is_op hit may h same.
      absurd (free (ground (arith, eq_iff other id, eq_iff e.id id, eq_iff e.id other)));
}

-- An event that an owner may have stays held, whatever operations follow but its own `resolve`.
step-IsHeld :
    (u : Setup) (db : Db) (op : Op) (id : String)
    → Unique db.events
    → any_row (with_id id) db.events ≡ true
    → All (IsHeld id) db.events
    → ¬ Resolves id op
    → All (IsHeld id) (step u db op).events
step-IsHeld u db op id unique there held free =
    step-All (IsHeld id) u db op unique held (IsHeld-kept u db op id there free)

submit_to_reconciles :
    (owner : Owner) (thread endpoint : String) (row : Event) (id : String)
    → is_active row.state ≡ true
    → IsHeld id row
    → All (λ c. ¬ Delivers id c) (submit_to owner thread endpoint row).1
unfolding submit_to
submit_to_reconciles owner thread endpoint row id active held = go (owner.connect endpoint)
  where
    go : (o : Option Outcome) → All (λ c. ¬ Delivers id c) (submit_on o owner thread endpoint row).1
    go (some failed) = tt
    go none = elim (Bool-cases (reconciling row)) [
      | inl t ↦ rw t (λ d. d, tt)
      | inr t ↦ rw t (λ d. ground (arith, held d), tt)
    ]

finish_reconciles :
    (owner : Owner) (l : Limits) (now later : ℕ) (db : Db) (id : String)
    → All (IsHeld id) db.events
    → All (λ c. ¬ Delivers id c) (dispatch_once owner l now later db).2
unfolding dispatch_once
finish_reconciles owner l now later db id held = go (next_due now db) refl
  where
    go :
        (o : Option Event)
        → next_due now db ≡ o
        → All (λ c. ¬ Delivers id c) (finish owner l later (claim_of l now db o) db).2
    go none due = tt
    go (some row) due = elim (Bool-cases (is_pending row.state && too_old l now row)) [
      | inl t ↦ rw t tt
      | inr t ↦ rw t (
          let picked = All-next_due (IsHeld id) now db held due in
          submit_to_reconciles owner _ _ row id (&&_split _ _ picked.1).0 picked.0)
    ]

calls_reconcile :
    (u : Setup) (db : Db) (op : Op) (id : String)
    → All (IsHeld id) db.events
    → All (λ c. ¬ Delivers id c) (calls u db op)
unfolding calls
calls_reconcile u db (dispatches owner now later) id held =
    finish_reconciles owner u.limits now later db id held
calls_reconcile u db (crashes owner now true) id held =
    finish_reconciles owner u.limits now now db id held
calls_reconcile u db _ id held = tt

-- A row that is in the table stays there.
pub step_present :
    (u : Setup) (db : Db) (op : Op) (id : String)
    → any_row (with_id id) db.events ≡ true
    → any_row (with_id id) (step u db op).events ≡ true
step_present u db op id there =
    step-Has (with_id id) (λ x y i b v. ap (λ k. k == id) i) u db op there

All-++ {ℓ κ} :
    {A : Type ℓ} (P : A → Type κ) (xs ys : List A) → All P xs → All P ys → All P (xs ++ ys)
All-++ P [] ys h k = k
All-++ P (x ∷ xs) ys h k = (h.0, All-++ P xs ys h.1 k)

-- A delivery that an owner may have is not handed over again by any operations that follow, but
-- for an operator's `resolve` of it.
pub held_run :
    (u : Setup) (db : Db) (ops : List Op) (id : String)
    → Unique db.events
    → any_row (with_id id) db.events ≡ true
    → All (IsHeld id) db.events
    → Unresolved id ops
    → All (λ c. ¬ Delivers id c) (all_calls u db ops)
unfolding all_calls
held_run u db [] id unique there held free = tt
held_run u db (op ∷ ops) id unique there held free =
    All-++ (λ c. ¬ Delivers id c) (calls u db op) _ (calls_reconcile u db op id held)
      (held_run u (step u db op) ops id (step-Unique u db op unique) (step_present u db op id there)
        (step-IsHeld u db op id unique there held free.0) free.1)
