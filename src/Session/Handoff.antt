-- ===== src/Session/Handoff.antt =====
-- What a failed delivery says of the message: which errors prove that it was not taken.
use codex_monitor.Common.{
  ◌≡◌, refl, ap, ◌∙◌, subst, String, Bool, true, false, ◌||◌, Option, none, some, ◌∷◌, arith,
}
use codex_monitor.Json.{Value, entry}
use codex_monitor.Monitor.Dispatch.{
  Failure, unavailable, retryable, uncertain_submission, permanent, unexpected,
}
use codex_monitor.Session.Rpc.{
  Request, lists_loaded, checks_queue, adds_message, RpcError, Answer, answered, rejected, failed,
  Remote, Trace, Attempt, done, raises, continue, call, ◌>>=◌,
}
use codex_monitor.Session.Errors.{is_permanent, code_is, submission_error}
use codex_monitor.Session.Target.{
  Kind, app_server, shared_local, check_loaded, check_queue, check_target, loaded_data,
  require_loaded, is_in, submitted, queued_id, id_or_raise, deliver,
}

-- The call that `check_target` makes.
abbrev pub probe : Kind → String → Request
probe app_server thread = lists_loaded
probe shared_local thread = checks_queue thread

check_loaded_calls : (thread : String) (a : Answer) (t : Trace) → (check_loaded thread a t).1 ≡ t
unfolding check_loaded
check_loaded_calls thread (answered v) t = read (entry "data" v)
  where
    listed : (o : Option Bool) → (require_loaded o t).1 ≡ t
    listed none = refl
    listed (some true) = refl
    listed (some false) = refl

    read : (o : Option Value) → (loaded_data thread o t).1 ≡ t
    read none = refl
    read (some live) = listed (is_in thread live)
check_loaded_calls thread (rejected e) t = refl
check_loaded_calls thread (failed f m) t = refl

check_queue_calls : (a : Answer) (t : Trace) → (check_queue a t).1 ≡ t
unfolding check_queue
check_queue_calls (answered v) t = refl
check_queue_calls (rejected e) t = refl
check_queue_calls (failed f m) t = refl

-- `check_target` makes one call.
pub check_target_calls :
    (remote : Remote) (kind : Kind) (thread : String) (t : Trace)
    → (check_target remote kind thread t).1 ≡ probe kind thread ∷ t
unfolding check_target
check_target_calls remote app_server thread t = check_loaded_calls thread _ _
check_target_calls remote shared_local thread t = check_queue_calls _ _

-- An answer that says that the message was not taken: the server rejects the request, or the
-- connection says so before it is sent.
abbrev pub is_refusal : Answer → Bool
is_refusal (answered v) = false
is_refusal (rejected e) = is_permanent e || code_is 32000 e
is_refusal (failed unavailable m) = true
is_refusal (failed retryable m) = true
is_refusal (failed permanent m) = true
is_refusal (failed uncertain_submission m) = false
is_refusal (failed unexpected m) = false

-- The classes of exceptions after which the receiver may deliver again, or gives up.
abbrev pub is_safe : Failure → Bool
is_safe unavailable = true
is_safe retryable = true
is_safe permanent = true
is_safe uncertain_submission = false
is_safe unexpected = false

queued_calls : (o : Option Value) (t : Trace) → (queued_id o t).1 ≡ t
queued_calls none t = refl
queued_calls (some q) t = go (entry "id" q)
  where
    go : (o : Option Value) → (id_or_raise o t).1 ≡ t
    go none = refl
    go (some v) = refl

submitted_calls : (a : Answer) (t : Trace) → (submitted a t).1 ≡ t
unfolding submitted
submitted_calls (answered v) t = queued_calls (entry "queuedSubmission" v) t
submitted_calls (rejected e) t = refl
submitted_calls (failed f m) t = refl

queued_unsafe :
    (o : Option Value) (t : Trace) (f : Failure) (m : String)
    → (queued_id o t).0 ≡ raises f m
    → is_safe f ≡ true
    → ⊥
queued_unsafe none t f m e s = ground arith
queued_unsafe (some q) t f m e s = go (entry "id" q) e
  where
    go : (o : Option Value) → (id_or_raise o t).0 ≡ raises f m → ⊥
    go none h = ground arith
    go (some v) h = ground arith

submission_unsafe :
    (e : RpcError)
    → is_safe (submission_error e).0 ≡ true
    → (is_permanent e || code_is 32000 e) ≡ true
unfolding submission_error
submission_unsafe e s = ground arith

submitted_refusal :
    (a : Answer) (t : Trace) (f : Failure) (m : String)
    → (submitted a t).0 ≡ raises f m
    → is_safe f ≡ true
    → is_refusal a ≡ true
unfolding submitted
submitted_refusal (answered v) t f m e s =
    absurd (queued_unsafe (entry "queuedSubmission" v) t f m e s)
submitted_refusal (rejected r) t f m e s =
    let same : (submission_error r).0 ≡ f = ground arith in
    submission_unsafe r (ap is_safe same ∙ s)
submitted_refusal (failed g n) t f m e s = go g f e s
  where
    go :
        (g f : Failure)
        → ◌≡◌ {A = Attempt Value} (raises g n) (raises f m)
        → is_safe f ≡ true
        → is_refusal (failed g n) ≡ true
    go unavailable f h s = refl
    go retryable f h s = refl
    go permanent f h s = refl
    go uncertain_submission f h s = ground arith
    go unexpected f h s = ground arith

-- The two ends of a delivery that failed in a safe way.
pub data IsUnsent (remote : Remote) (kind : Kind) (thread client body : String) (t : Trace)
    : Trace → Type 0 where
  never_sent : IsUnsent remote kind thread client body t (probe kind thread ∷ t)
  refused :
      is_refusal (remote.call (probe kind thread ∷ t) (adds_message thread client body)) ≡ true
      → IsUnsent remote kind thread client body t
          (adds_message thread client body ∷ probe kind thread ∷ t)

-- A delivery fails with Unavailable, Retryable or Permanent (after which the event may be delivered
-- again, or is given up) only where the message was not taken: `thread/queue/add` was not called at
-- all, or the answer to the one call of it was a refusal. An answer that leaves the matter open, a
-- lost one included, never leads there.
pub deliver-IsUnsent :
    (remote : Remote) (kind : Kind) (thread client body : String) (t : Trace) (f : Failure)
    (m : String)
    → (deliver remote kind thread client body t).0 ≡ raises f m
    → is_safe f ≡ true
    → IsUnsent remote kind thread client body t (deliver remote kind thread client body t).1
unfolding deliver
deliver-IsUnsent remote kind thread client body t f m e s =
    go (check_target remote kind thread t).0 (check_target remote kind thread t).1
      (check_target_calls remote kind thread t) e
  where
    go :
        (o : Attempt (Unit {0})) (t1 : Trace)
        → t1 ≡ probe kind thread ∷ t
        → (continue o (λ u. call remote (adds_message thread client body) >>= submitted) t1).0
          ≡ raises f m
        → IsUnsent remote kind thread client body t
            (continue o (λ u. call remote (adds_message thread client body) >>= submitted) t1).1
    go (raises g n) t1 c h = rw c never_sent
    go (done u) t1 c h =
        let sent =
          submitted_calls (remote.call t1 (adds_message thread client body))
            (adds_message thread client body ∷ t1) in
        let bad =
          submitted_refusal (remote.call t1 (adds_message thread client body))
            (adds_message thread client body ∷ t1) f m h s in
        rw sent (
          rw c (
            refused (
              subst (λ x. is_refusal (remote.call x (adds_message thread client body)) ≡ true) c
                bad)))
