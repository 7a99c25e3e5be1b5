-- ===== src/Session/Samples.antt =====
-- Owners that answer in fixed ways, on which the theorems of this folder are applied.
use codex_monitor.Common.{
  ◌⊎◌, ℕ, ◌+◌, ◌≤◌, ◌≡◌, refl, String, Bool, true, false, Option, none, some, List, [], ◌∷◌, length,
  All,
}
use codex_monitor.Json.{Value, nil, cons, end, field, text, array, object, number}
use codex_monitor.Json.Numeric.{int, negsuc}
use codex_monitor.Monitor.Dispatch.{retryable, uncertain_submission}
use codex_monitor.Monitor.Dispatch.{delivers, uncertain_submission}
use codex_monitor.Monitor.Machine.{dispatches, calls, step, all_calls}
use codex_monitor.Monitor.Replay.{Delivers}
use codex_monitor.Monitor.Samples.{toy_setup, waiting, waiting_event, waiting_due}
use codex_monitor.Session.Submission.{
  Sessions, session_owner, IsNeverTaken, delivered_once_or_unsent,
}
use codex_monitor.Session.Rpc.{
  Request, lists_loaded, checks_queue, adds_message, lists_queue, lists_turns, Answer, answered,
  rejected, failed, Remote, done, raises,
}
use codex_monitor.Session.Errors.{names_target, operation_error, submission_error}
use codex_monitor.Session.Target.{
  app_server, shared_local, check_target, submitted, deliver, is_in, any_text,
}
use codex_monitor.Session.Inspect.{present, queue, inspect, reconcile, seen_cursor}
use codex_monitor.Session.Handoff.{IsUnsent, deliver-IsUnsent}
use codex_monitor.Session.Scan.{inspect_bound, IsRead, reconcile-IsRead}

-- An owner with a full queue, on whose second page is the message m1.
abbrev busy_answer : Request → Answer
busy_answer lists_loaded = answered (object (field "data" (array (cons (text "t1") nil)) end))
busy_answer (checks_queue thread) = answered (object end)
busy_answer (adds_message thread client body) =
    rejected (record { code = some (number (int (negsuc 32000))); message = "busy" })
busy_answer (lists_queue thread none) =
    answered (object (field "data" (array nil) (field "nextCursor" (text "c2") end)))
busy_answer (lists_queue thread (some c)) = answered (
    object (
      field "data"
        (array (
          cons (object (field "clientUserMessageId" (text "m1") (field "id" (text "q7") end))) nil))
        end))
busy_answer (lists_turns thread cursor) = answered (object end)

abbrev busy : Remote
busy = record { call = λ t r. busy_answer r; late = λ t. false }

busy_fails :
    (deliver busy app_server "t1" "m1" "hello" []).0
    ≡ raises retryable "queue submission temporarily failed: busy"
unfolding deliver check_target is_in any_text codex_monitor.Json.get_field submitted
    submission_error operation_error names_target codex_monitor.Json.Numeric.number_eq
    codex_monitor.Session.Errors.contains codex_monitor.Endpoint.strip_prefix
    codex_monitor.Common.text_append
busy_fails = refl

deliver-IsUnsent_example :
    IsUnsent busy app_server "t1" "m1" "hello" [] (deliver busy app_server "t1" "m1" "hello" []).1
deliver-IsUnsent_example =
    deliver-IsUnsent busy app_server "t1" "m1" "hello" [] retryable
      "queue submission temporarily failed: busy" busy_fails refl

-- The scan goes on to the second page.
busy_located : (inspect busy shared_local 5 "t1" "m1" []).0 ≡ done (present queue (text "q7"))
unfolding inspect check_target codex_monitor.Json.get_field seen_cursor
busy_located = refl

inspect_bound_example : length (inspect busy shared_local 5 "t1" "m1" []).1 ≤ 0 + 1 + 5
inspect_bound_example = inspect_bound busy shared_local 5 "t1" "m1" []

reconcile-IsRead_example : All IsRead (reconcile busy shared_local 5 "t1" "m1" []).1
reconcile-IsRead_example = reconcile-IsRead busy shared_local 5 "t1" "m1"

-- It takes the message and does not answer.
abbrev mute_answer : Request → Answer
mute_answer (adds_message thread client body) = failed uncertain_submission "no answer"
mute_answer r = answered (object end)

abbrev mute : Sessions
mute = record {
  connect = λ endpoint. none;
  remote_of = λ endpoint. record { call = λ t r. mute_answer r; late = λ t. false };
  kind_of = λ endpoint. shared_local;
  max_pages = 5;
  render = λ e. e.envelope;
  id_text = λ v. "id";
}

mute_called :
    calls toy_setup waiting (dispatches (session_owner mute) 10 11) ≡ delivers waiting_event.id ∷ []
unfolding calls codex_monitor.Monitor.Dispatch.dispatch_once codex_monitor.Monitor.Dispatch.next_due
    codex_monitor.Monitor.Dispatch.first_in_order codex_monitor.Common.select_rows
    codex_monitor.Common.any_row codex_monitor.Monitor.Dispatch.submit_to session_owner
mute_called = refl

delivered_once_or_unsent_example :
    All
      (λ c. ¬ Delivers "d1" c)
      (all_calls toy_setup
        (step toy_setup waiting (dispatches (session_owner mute) 10 11))
        (dispatches (session_owner mute) 40_000_000 40_000_001 ∷ []))
    ⊎ IsNeverTaken mute waiting waiting_event
delivered_once_or_unsent_example =
    delivered_once_or_unsent toy_setup mute 10 11 waiting waiting_event
      (dispatches (session_owner mute) 40_000_000 40_000_001 ∷ []) (tt, tt) waiting_due mute_called
      ((λ r. r), tt)
