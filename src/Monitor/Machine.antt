-- ===== src/Monitor/Machine.antt =====
-- The receiver as a machine: every operation that writes monitor.sqlite3, in any order, with a
-- crash after the claim of a delivery. An operation that raises leaves the tables as they were.
use codex_monitor.Common.{ℕ, String, Bool, true, Option, List, [], ◌∷◌, ◌++◌, Result, ok, err}
use codex_monitor.Json.{Value}
use codex_monitor.Endpoint.{Url}
use codex_monitor.Monitor.State.{Db, Limits, Codec}
use codex_monitor.Monitor.Intake.{Receipt, ingest}
use codex_monitor.Monitor.Routes.{Action, bind, rebind, set_enabled, dashboard_action}
use codex_monitor.Monitor.Dispatch.{
  Owner, Call, Claim, idle, expired, claimed, claim, dispatch_once, Resolution, resolve,
}
use codex_monitor.Monitor.Managed.{
  managed_create, managed_set_enabled, managed_remove, managed_set_worker, managed_heartbeat,
}

-- An operation with its arguments, the clock's readings and the drawn uuid among them.
pub data Op : Type 0 where
  ingests : String → ℕ → String → Value → Op
  dispatches : Owner → ℕ → ℕ → Op
  crashes : Owner → ℕ → Bool → Op
  resolves : ℕ → String → Resolution → String → Op
  binds : String → String → String → List String → Op
  rebinds : String → String → String → String → Op
  enables : String → Bool → Op
  acts : ℕ → String → String → String → Action → Op
  creates : String → ℕ → String → String → String → ℕ → String → ℕ → Option Value → Op
  switches : ℕ → String → String → Bool → Op
  removes : ℕ → String → String → Op
  reports : ℕ → String → String → Option String → Option String → Option String → Op
  beats : ℕ → ℕ → String → Op

-- The parameters of the receiver.
pub record Setup : Type 0 where
  pub codec : Codec
  pub limits : Limits
  pub urlsplit : String → Option Url
  pub blank : String → Bool

abbrev pub after : Db → Result Db → Db
after db (ok db') = db'
after db (err c m) = db

abbrev pub after_receipt : Db → Result (Db × Receipt) → Db
after_receipt db (ok (db', r)) = db'
after_receipt db (err c m) = db

-- The claim is committed, and the receiver dies before it writes the outcome.
abbrev pub after_claim : Db → Claim → Db
after_claim db idle = db
after_claim db (expired db') = db'
after_claim db (claimed row db') = db'

unfoldable pub step : Setup → Db → Op → Db
step u db (ingests fresh now binding envelope) =
    after_receipt db (ingest u.codec u.limits fresh now binding envelope db)
step u db (dispatches owner now later) = (dispatch_once owner u.limits now later db).0
step u db (crashes owner now called) = after_claim db (claim u.limits now db)
step u db (resolves now id action reason) = after db (resolve u.blank now id action reason db)
step u db (binds name thread endpoint sources) = after db (bind name thread endpoint sources db)
step u db (rebinds name thread previous endpoint) =
    after db (rebind u.urlsplit name thread previous endpoint db)
step u db (enables name enabled) = after db (set_enabled name enabled db)
step u db (acts now name thread endpoint action) =
    after db (dashboard_action now name thread endpoint action db)
step u db (creates fresh now thread name path interval endpoint debounce condition) = after db (
    managed_create u.codec u.urlsplit fresh now thread name path interval endpoint debounce
      condition db)
step u db (switches now thread name enabled) =
    after db (managed_set_enabled now thread name enabled db)
step u db (removes now thread name) = after db (managed_remove now thread name db)
step u db (reports now id state error delivery sample_error) =
    managed_set_worker now id state error delivery sample_error db
step u db (beats now later id) = managed_heartbeat now later id db

-- The calls that an operation makes to an owner's session. A crash falls before or after its call.
unfoldable pub calls : Setup → Db → Op → List Call
calls u db (dispatches owner now later) = (dispatch_once owner u.limits now later db).2
calls u db (crashes owner now true) = (dispatch_once owner u.limits now now db).2
calls u db _ = []

unfoldable pub run : Setup → Db → List Op → Db
unfolding step
run u db [] = db
run u db (op ∷ ops) = run u (step u db op) ops

unfoldable pub all_calls : Setup → Db → List Op → List Call
unfolding calls step
all_calls u db [] = []
all_calls u db (op ∷ ops) = calls u db op ++ all_calls u (step u db op) ops
