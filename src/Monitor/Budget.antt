-- ===== src/Monitor/Budget.antt =====
-- The delivery budget: how often an event can be handed over.
use codex_monitor.Common.{ℕ, ◌≡◌, ◌≤◌, ◌<◌, true, List, [], ◌∷◌, arith, All}
use codex_monitor.Monitor.State.{Event, Db, Limits, is_active, is_pending}
use codex_monitor.Monitor.Dispatch.{Outcome, received, absent, raised, after_failure}
use codex_monitor.Monitor.Machine.{Op, Setup, step, run}
use codex_monitor.Monitor.Cases.{settled}
use codex_monitor.Monitor.Rules.{Unique, Kept}
use codex_monitor.Monitor.Steps.{step-All, step-Unique}

-- A waiting event has a delivery attempt left.
pub record IsBudgeted (l : Limits) (e : Event) : Type 0 where
  pub within : e.attempts ≤ l.max_attempts
  pub left : is_pending e.state ≡ true → e.attempts < l.max_attempts

settled-IsBudgeted :
    (l : Limits) (now later : ℕ) (e : Event) (o : Outcome)
    → is_active e.state ≡ true
    → IsBudgeted l e
    → IsBudgeted l (settled l now later e o e)
unfolding after_failure
settled-IsBudgeted l now later e (received s) a b = ground arith
settled-IsBudgeted l now later e absent a b = ground arith
settled-IsBudgeted l now later e (raised f m) a b = ground arith

kept_budget :
    (u : Setup) (db : Db) (op : Op) → 0 < u.limits.max_attempts → Kept u db op (IsBudgeted u.limits)
kept_budget u db op some_left = record {
  on_new = λ seq fresh now binding h new. ground arith;
  on_expire = λ now e p b. ground arith;
  on_submit = λ now e a b. ground arith;
  on_settle = settled-IsBudgeted u.limits;
  on_resolve = λ now id reason action e is_op hit may b. ground arith;
}

-- Whatever happens, no event is charged more than `max_attempts` attempts, and an event that waits
-- for delivery has one left; this holds after any operations if it holds before, where delivery
-- ids are unique and `max_attempts` is positive, as the constructor demands.
pub run-IsBudgeted :
    (u : Setup) (db : Db) (ops : List Op)
    → 0 < u.limits.max_attempts
    → Unique db.events
    → All (IsBudgeted u.limits) db.events
    → All (IsBudgeted u.limits) (run u db ops).events
unfolding run
run-IsBudgeted u db [] some_left unique all = all
run-IsBudgeted u db (op ∷ ops) some_left unique all =
    run-IsBudgeted u (step u db op) ops some_left (step-Unique u db op unique)
      (step-All (IsBudgeted u.limits) u db op unique all (kept_budget u db op some_left))
