-- ===== src/Monitor/Dispatch.antt =====
-- `Monitor.dispatch_once` and `resolve`. The claim is committed before the session is called, so
-- a crash of the receiver leaves the claim behind; the result is written afterwards.
use codex_monitor.Common.{
  ℕ, ◌+◌, ◌-◌, ◌*◌, ◌^◌, min, String, Bool, true, false, not, ◌&&◌, ◌||◌, Option, none, some, List,
  [], ◌∷◌, ◌++◌, ltb, leb, eqb, if◌then◌else◌, Result, ok, ◌>>◌, require, refuse_if, take_chars,
  find_row, any_row, select_rows, update_rows, ◌==◌,
}
use codex_monitor.Monitor.State.{
  Binding, Event, EventState, pending, submitting, uncertain, accepted, dead, discarded, Db, Limits,
  second, is_active, is_pending,
}
use codex_monitor.Monitor.Intake.{named, with_id}

-- errors.py: the exceptions that a session raises; `unexpected` stands for every other class.
pub data Failure : Type 0 where
  unavailable retryable uncertain_submission permanent unexpected : Failure

-- What a call of the session comes to. `absent` is a reconciliation that found nothing.
pub data Outcome : Type 0 where
  received : String → Outcome
  absent : Outcome
  raised : Failure → String → Outcome

-- `session_factory(endpoint)` and the two methods that are called on a session.
pub record Owner : Type 0 where
  pub connect : String → Option Outcome
  pub deliver : String → String → String → String → Outcome
  pub reconcile : String → String → String → Outcome
  pub render : Event → String

-- A call made to a session, as the owner saw it.
pub data Call : Type 0 where
  delivers : String → Call
  reconciles : String → Call

abbrev pub open_route : Event → Binding → Bool
open_route e b = b.name == e.binding && (b.enabled && not b.removed)

-- `prior.binding=e.binding AND prior.seq<e.seq AND prior.state IN (...)`
abbrev pub blocks : Event → Event → Bool
blocks e prior = prior.binding == e.binding && (ltb prior.seq e.seq && is_active prior.state)

abbrev pub is_due : ℕ → Db → Event → Bool
is_due now db e =
    is_active e.state
    && (any_row (open_route e) db.bindings
        && (leb e.next_at now && not (any_row (blocks e) db.events)))

-- ORDER BY next_at, seq
abbrev pub before : Event → Event → Bool
before a b = ltb a.next_at b.next_at || (eqb a.next_at b.next_at && leb a.seq b.seq)

abbrev pub earlier : Event → Option Event → Event
earlier e none = e
earlier e (some f) = if before e f then e else f

-- LIMIT 1
unfoldable pub first_in_order : List Event → Option Event
first_in_order [] = none
first_in_order (e ∷ es) = some (earlier e (first_in_order es))

unfoldable pub next_due : ℕ → Db → Option Event
next_due now db = first_in_order (select_rows (is_due now db) db.events)

abbrev pub set_event : String → (Event → Event) → Db → Db
set_event id f db = record db { events = update_rows (with_id id) f db.events }

abbrev pub expire : ℕ → Event → Event
expire now e = record e { state = dead; error = some "event expired"; updated = now }

abbrev pub submit : ℕ → Bool → Event → Event
submit now reconciling e = record e {
  state = submitting;
  attempts = e.attempts + (if reconciling then 0 else 1);
  updated = now;
}

pub data Claim : Type 0 where
  idle : Claim
  expired : Db → Claim
  -- the row as it was read, and the committed claim
  claimed : Event → Db → Claim

abbrev pub reconciling : Event → Bool
reconciling e = not (is_pending e.state)

-- `self.clock() - row["created"] > self.max_age`
abbrev pub too_old : Limits → ℕ → Event → Bool
too_old l now e = ltb (e.created + l.max_age * second) now

abbrev pub claim_row : Limits → ℕ → Event → Db → Claim
claim_row l now e db =
    if is_pending e.state && too_old l now e
    then expired (set_event e.id (expire now) db)
    else claimed e (set_event e.id (submit now (reconciling e)) db)

abbrev pub claim_of : Limits → ℕ → Db → Option Event → Claim
claim_of l now db none = idle
claim_of l now db (some e) = claim_row l now e db

unfoldable pub claim : Limits → ℕ → Db → Claim
claim l now db = claim_of l now db (next_due now db)

-- The state and the delay that an exception leads to. `row` is the row before the claim.
unfoldable pub after_failure : Limits → Event → Failure → EventState × ℕ
after_failure l row f = if reconciling row then (uncertain, 30) else elim f [
  | uncertain_submission ↦ (uncertain, 30)
  | unavailable ↦ (pending, 5)
  | retryable ↦
      (if leb l.max_attempts (row.attempts + 1) then dead else pending, min 60 (2 ^ row.attempts))
  | permanent ↦ (dead, 0)
  | unexpected ↦ (uncertain, 30)
]

abbrev pub gives_back : Event → Failure → Bool
gives_back row unavailable = not (reconciling row)
gives_back row _ = false

abbrev pub fail : Limits → ℕ → Event → Failure → String → Event → Event
fail l now row f message e =
    let (state, delay) = after_failure l row f in
    record e {
      state = state;
      error = some (take_chars 500 message);
      next_at = now + delay * second;
      updated = now;
      attempts = if gives_back row f then e.attempts - 1 else e.attempts;
    }

abbrev pub accept : ℕ → String → Event → Event
accept now submission e = record e {
  state = accepted;
  submission_id = some submission;
  error = none;
  updated = now;
}

abbrev pub settle_row : Limits → ℕ → Event → Outcome → Event → Event
settle_row l now row (received submission) e = accept now submission e
settle_row l now row absent e =
    if reconciling row
    then fail l now row uncertain_submission
        "not found in queue/history; inspect conversation before replay" e
    else fail l now row unexpected "'NoneType' object is not subscriptable" e
settle_row l now row (raised f message) e = fail l now row f message e

-- The second half of dispatch_once: the session's answer is written to the claimed row.
unfoldable pub settle : Limits → ℕ → Event → Outcome → Db → Db
settle l now row outcome db = set_event row.id (settle_row l now row outcome) db

abbrev pub route_of : Event → Db → Option Binding
route_of e db = find_row (named e.binding) db.bindings

abbrev pub submit_on : Option Outcome → Owner → String → String → Event → Outcome × List Call
submit_on (some failed) owner thread endpoint row = (failed, [])
submit_on none owner thread endpoint row =
    if reconciling row
    then (owner.reconcile endpoint thread row.client_id, reconciles row.id ∷ [])
    else (owner.deliver endpoint thread row.client_id (owner.render row), delivers row.id ∷ [])

-- The calls made for a claimed row, and their outcome.
unfoldable pub submit_to : Owner → String → String → Event → Outcome × List Call
submit_to owner thread endpoint row = submit_on (owner.connect endpoint) owner thread endpoint row

abbrev pub target_thread : Option Binding → String
target_thread none = ""
target_thread (some b) = b.thread

abbrev pub target_endpoint : Option Binding → String
target_endpoint none = ""
target_endpoint (some b) = b.endpoint

abbrev pub finish : Owner → Limits → ℕ → Claim → Db → Db × Bool × List Call
finish owner l later idle db = (db, false, [])
finish owner l later (expired db') db = (db', true, [])
finish owner l later (claimed row db') db =
    let route = route_of row db in
    let (outcome, calls) = submit_to owner (target_thread route) (target_endpoint route) row in
    (settle l later row outcome db', true, calls)

-- `now` is the clock at the claim, `later` at the end. The Boolean is the method's result.
unfoldable pub dispatch_once : Owner → Limits → ℕ → ℕ → Db → Db × Bool × List Call
unfolding claim settle
dispatch_once owner l now later db = finish owner l later (claim l now db) db

pub data Resolution : Type 0 where
  accepts replays discards : Resolution

abbrev pub resolved_state : Resolution → EventState
resolved_state accepts = accepted
resolved_state replays = pending
resolved_state discards = discarded

abbrev pub resolution_name : Resolution → String
resolution_name accepts = "accept"
resolution_name replays = "replay"
resolution_name discards = "discard"

abbrev pub resolvable : EventState → Bool
resolvable uncertain = true
resolvable dead = true
resolvable _ = false

abbrev pub may_resolve : Option Event → Bool
may_resolve none = false
may_resolve (some e) = resolvable e.state

-- The transaction of `resolve`, with the row that it reads.
abbrev pub resolve_checked : Bool → Option Event → ℕ → String → Resolution → String → Db → Result Db
resolve_checked is_blank row now id action reason db = do
  refuse_if is_blank 400 "resolution requires accept/replay/discard and a reason"
  require (may_resolve row) 409 "only uncertain/dead deliveries can be resolved"
  ok (record db {
    events =
        update_rows (with_id id)
          (λ e. record e {
            state = resolved_state action;
            error = none;
            attempts = 0;
            next_at = 0;
            created = now;
            updated = now;
          })
          db.events;
    decisions =
        db.decisions
        ++ record {
          delivery_id = id;
          action = resolution_name action;
          reason = reason;
          created = now;
        }
          ∷ [];
  })

-- `blank` tells a reason that has nothing but white space.
unfoldable pub resolve : (String → Bool) → ℕ → String → Resolution → String → Db → Result Db
resolve blank now id action reason db =
    resolve_checked (blank reason) (find_row (with_id id) db.events) now id action reason db
