-- ===== src/Session/Target.antt =====
-- `check_target` of both sessions, and `deliver`.
use codex_monitor.Common.{String, Bool, true, false, ◌||◌, Option, none, some, codes}
use codex_monitor.Json.{Value, Items, nil, cons, text, array, object, has_field, entry, is_text}
use codex_monitor.Monitor.Dispatch.{Failure, unavailable, permanent, unexpected}
use codex_monitor.Session.Rpc.{
  lists_loaded, checks_queue, adds_message, Answer, answered, rejected, failed, Remote, Session,
  pure, raise, ◌>>=◌, ◌>>◌, call,
}
use codex_monitor.Session.Errors.{contains, operation_error, submission_error}

-- `AppServerSession` and `SharedLocalSession`.
pub data Kind : Type 0 where
  app_server shared_local : Kind

unfoldable pub any_text : String → Items → Bool
any_text s nil = false
any_text s (cons v vs) = is_text s v || any_text s vs

-- `thread in live`; `none` where it raises TypeError.
unfoldable pub is_in : String → Value → Option Bool
unfolding any_text
is_in s (array vs) = some (any_text s vs)
is_in s (object fs) = some (has_field s fs)
is_in s (text t) = some (contains (codes s) (codes t))
is_in s _ = none

-- The `except` clauses of `check_target`: all but a permanent error become Unavailable.
abbrev pub unverified : String → Failure → String → Failure × String
unverified sentence permanent m = (permanent, m)
unverified sentence _ m = (unavailable, sentence)

-- A response's error: its class is kept only where it is permanent.
abbrev pub demoted : Failure × String → Failure × String
demoted (permanent, m) = (permanent, m)
demoted (_, m) = (unavailable, m)

abbrev pub raise_pair {ℓ} : {A : Type ℓ} → Failure × String → Session A
raise_pair e = raise e.0 e.1

abbrev pub loaded_sentence : String
loaded_sentence = "cannot verify that the interactive thread is loaded"

abbrev pub require_loaded : Option Bool → Session (Unit {0})
require_loaded (some true) = pure tt
require_loaded (some false) =
    raise unavailable "open this exact thread in the client attached to the same App Server"
require_loaded none = raise unexpected "TypeError"

abbrev pub loaded_data : String → Option Value → Session (Unit {0})
loaded_data thread none = raise unavailable loaded_sentence
loaded_data thread (some live) = require_loaded (is_in thread live)

unfoldable pub check_loaded : String → Answer → Session (Unit {0})
unfolding is_in
check_loaded thread (answered v) = loaded_data thread (entry "data" v)
check_loaded thread (rejected e) =
    raise_pair (demoted (operation_error "loaded-thread validation" e))
check_loaded thread (failed f m) = raise_pair (unverified loaded_sentence f m)

unfoldable pub check_queue : Answer → Session (Unit {0})
check_queue (answered v) = pure tt
check_queue (rejected e) = raise_pair (demoted (operation_error "local queue target" e))
check_queue (failed f m) = raise_pair (unverified "cannot verify the shared local queue" f m)

unfoldable pub check_target : Remote → Kind → String → Session (Unit {0})
unfolding check_loaded check_queue
check_target remote app_server thread = do
  answer ← call remote lists_loaded
  check_loaded thread answer
check_target remote shared_local thread = do
  answer ← call remote (checks_queue thread)
  check_queue answer

abbrev pub id_or_raise : Option Value → Session Value
id_or_raise (some v) = pure v
id_or_raise none = raise unexpected "KeyError"

abbrev pub queued_id : Option Value → Session Value
queued_id none = raise unexpected "KeyError"
queued_id (some q) = id_or_raise (entry "id" q)

-- What `deliver` makes of the answer to `thread/queue/add`: the submission's id.
unfoldable pub submitted : Answer → Session Value
submitted (answered v) = queued_id (entry "queuedSubmission" v)
submitted (rejected e) = raise_pair (submission_error e)
submitted (failed f m) = raise f m

unfoldable pub deliver : Remote → Kind → String → String → String → Session Value
unfolding check_target submitted
deliver remote kind thread client body = do
  check_target remote kind thread
  answer ← call remote (adds_message thread client body)
  submitted answer
