-- ===== src/Session/Submission.antt =====
-- A dispatch of the receiver over the sessions of this folder: what the protocol says of a message
-- decides what the row of its event says.
use codex_monitor.Common.{
  ℕ, ◌≡◌, refl, subst, ◌⊎◌, inl, inr, String, true, false, Option, none, some, List, [], ◌∷◌, All,
  arith, Bool-cases,
}
use codex_monitor.Json.{Value}
use codex_monitor.Monitor.State.{Event, Db, Limits}
use codex_monitor.Monitor.Dispatch.{
  Failure, unavailable, retryable, permanent, uncertain_submission, unexpected, Outcome, received,
  absent, raised, Owner, delivers, next_due, route_of, target_thread, target_endpoint,
  dispatch_once,
}
use codex_monitor.Monitor.Machine.{Op, dispatches, Setup, calls, step, all_calls}
use codex_monitor.Monitor.Rules.{Unique}
use codex_monitor.Monitor.Steps.{step-Unique}
use codex_monitor.Monitor.Replay.{IsHeld, Unresolved, Delivers, held_run, step_present}
use codex_monitor.Monitor.Once.{refuses, answer_to, dispatch-IsHeld, dispatch_present}
use codex_monitor.Session.Rpc.{Remote, Attempt, done, raises}
use codex_monitor.Session.Target.{Kind, deliver}
use codex_monitor.Session.Inspect.{reconcile}
use codex_monitor.Session.Handoff.{is_safe, IsUnsent, deliver-IsUnsent}

-- The sessions of all endpoints; each connection answers from any point of its life on.
pub record Sessions : Type 0 where
  pub connect : String → Option Outcome
  pub remote_of : String → Remote
  pub kind_of : String → Kind
  pub max_pages : ℕ
  pub render : Event → String
  -- how a submission's id is stored
  pub id_text : Value → String

abbrev pub delivery_outcome : Sessions → Attempt Value → Outcome
delivery_outcome s (done v) = received (s.id_text v)
delivery_outcome s (raises f m) = raised f m

abbrev pub reconciled_outcome : Sessions → Attempt (Option Value) → Outcome
reconciled_outcome s (done (some v)) = received (s.id_text v)
reconciled_outcome s (done none) = absent
reconciled_outcome s (raises f m) = raised f m

unfoldable pub session_owner : Sessions → Owner
session_owner s = record {
  connect = s.connect;
  deliver = λ endpoint thread client body.
      delivery_outcome s
        (deliver (s.remote_of endpoint) (s.kind_of endpoint) thread client body []).0;
  reconcile = λ endpoint thread client.
      reconciled_outcome s
        (reconcile (s.remote_of endpoint) (s.kind_of endpoint) s.max_pages thread client []).0;
  render = s.render;
}

refused_safely :
    (s : Sessions) (a : Attempt Value)
    → refuses (delivery_outcome s a) ≡ true
    → (f : Failure) × (m : String) × (a ≡ raises f m) × (is_safe f ≡ true)
refused_safely s (done v) h = absurd (ground (arith, h))
refused_safely s (raises unavailable m) h = (unavailable, m, refl, refl)
refused_safely s (raises retryable m) h = (retryable, m, refl, refl)
refused_safely s (raises permanent m) h = (permanent, m, refl, refl)
refused_safely s (raises uncertain_submission m) h = absurd (ground (arith, h))
refused_safely s (raises unexpected m) h = absurd (ground (arith, h))

-- The message of the row, and the session that it goes to.
module _ (s : Sessions) (db : Db) (row : Event) where
  abbrev pub endpoint_of : String
  endpoint_of = target_endpoint (route_of row db)

  abbrev pub IsNeverTaken : Type 0
  IsNeverTaken =
      IsUnsent (s.remote_of endpoint_of) (s.kind_of endpoint_of) (target_thread (route_of row db))
        row.client_id (s.render row) []
        (deliver (s.remote_of endpoint_of) (s.kind_of endpoint_of) (target_thread (route_of row db))
          row.client_id (s.render row) []).1

-- After a dispatch the event is held, or its message was not taken.
dispatch_once-IsHeld :
    (s : Sessions) (l : Limits) (now later : ℕ) (db : Db) (row : Event)
    → next_due now db ≡ some row
    → (dispatch_once (session_owner s) l now later db).2 ≡ delivers row.id ∷ []
    → All (IsHeld row.id) (dispatch_once (session_owner s) l now later db).0.events
      ⊎ IsNeverTaken s db row
unfolding session_owner
dispatch_once-IsHeld s l now later db row due calls =
    elim (Bool-cases (refuses (answer_to (session_owner s) db row))) [
      | inr taken ↦ inl (
          dispatch-IsHeld (session_owner s) l now later db row.id
            (λ other f.
              subst (λ r. refuses (answer_to (session_owner s) db r) ≡ false)
                (same_row row other due f) taken)
            calls)
      | inl refused ↦
          let (f, m, failed, safe) = refused_safely s _ refused in
          inr (deliver-IsUnsent _ _ _ row.client_id (s.render row) [] f m failed safe)
    ]
  where
    same_row : (a b : Event) → next_due now db ≡ some a → next_due now db ≡ some b → a ≡ b
    same_row a b h k = cc

-- End to end: after a dispatch over these sessions has called `deliver` for an event, no operations
-- that follow, in any order, with any owners, clocks and crashes, hand that event over again, unless
-- an operator resolves it, or the app server did not take the message: `thread/queue/add` was not
-- called for it, or the answer to the one call of it was a refusal. Delivery ids are unique.
pub delivered_once_or_unsent :
    (u : Setup) (s : Sessions) (now later : ℕ) (db : Db) (row : Event) (ops : List Op)
    → Unique db.events
    → next_due now db ≡ some row
    → calls u db (dispatches (session_owner s) now later) ≡ delivers row.id ∷ []
    → Unresolved row.id ops
    → All
        (λ c. ¬ Delivers row.id c)
        (all_calls u (step u db (dispatches (session_owner s) now later)) ops)
      ⊎ IsNeverTaken s db row
unfolding calls step
delivered_once_or_unsent u s now later db row ops unique due called free =
    elim (dispatch_once-IsHeld s u.limits now later db row due called) [
      | inr unsent ↦ inr unsent
      | inl held ↦
          let op = dispatches (session_owner s) now later in
          inl (
            held_run u (step u db op) ops row.id (step-Unique u db op unique)
              (step_present u db op row.id
                (dispatch_present (session_owner s) u.limits now later db row.id called))
              held free)
    ]
