-- ===== src/Health/Probe.antt =====
-- `probe_owner` and `_latest_execution_error`, one function for each place where the probe may end.
use codex_monitor.Common.{
  ℕ, String, Bool, true, false, not, ◌&&◌, ◌||◌, Option, none, some, List, [], ◌∷◌, if◌then◌else◌,
  ◌==◌,
}
use codex_monitor.Json.{Value, cons, text, array, object, get_field, entry, is_text}
use codex_monitor.Health.Words.{Outside, supported_endpoint, auth_text, auth_error, unsupported}
use codex_monitor.Health.Answers.{
  status_value, Account, account_unsupported, account_unavailable, account_auth_required,
  account_observation,
}
use codex_monitor.Health.Peer.{
  initialize, initialized, reads_account, reads_thread, lists_last_turn, Answer, answered, rejected,
  broken, crashed, Trace, Connected, connected, refused, not_connected, Peer, unloaded, unavailable,
  execution_error, ready_to_receive, Execution, execution_unsupported, execution_unavailable,
  failed_turn, Observation, Ending, base, because, ended, login_needed, owner_gone, owner_failed,
  if_auth,
}
use codex_monitor.Health.Pages.{
  Paged, rows, page_rejected, page_broken, page_crashed, read_pages, loaded_ids, any_id, sortable,
}

-- What a failed newest turn says.
abbrev turn_error : Outside → Option Value → Option Value → Execution
turn_error o (some (text status)) (some (text message)) =
    if status == "failed" && not (o.strip message == "")
    then failed_turn (auth_text o message)
    else execution_unavailable
turn_error o status message = execution_unavailable

abbrev error_message : Option Value → Option Value
error_message (some (object fs)) = get_field "message" fs
error_message _ = none

abbrev first_turn : Outside → Option Value → Execution
first_turn o (some (array (cons (object fs) rest))) =
    turn_error o (get_field "status" fs) (error_message (get_field "error" fs))
first_turn o _ = execution_unavailable

-- `_latest_execution_error`
unfoldable pub latest_execution_error : Outside → Answer → Execution
latest_execution_error o (answered page) = first_turn o (entry "data" page)
latest_execution_error o (rejected e) =
    if unsupported o e then execution_unsupported else execution_unavailable
latest_execution_error o _ = execution_unavailable

abbrev status_of_thread : Outside → Option Value → Option String
status_of_thread o (some (object fs)) = elim (get_field "status" fs) [
  | none ↦ none
  | some v ↦ status_value o v
]
status_of_thread o _ = none

abbrev or_thread : Option String → Option String → Option String
or_thread (some s) other = some s
or_thread none other = other

-- The status in the answer to `thread/read`.
unfoldable pub read_status : Outside → Value → Option String
read_status o (object fs) =
    or_thread (status_of_thread o (some (object fs))) (status_of_thread o (get_field "thread" fs))
read_status o _ = none

abbrev pub ready_now : Observation → Observation
ready_now r = record r {
  status = ready_to_receive;
  ready = true;
  reason = some "owner transport reachable and conversation loaded";
}

abbrev system_error : Outside → Peer → String → Observation → Trace → Ending
system_error o owner thread r t = (
  some
      (record (ended execution_error
        "conversation reports systemError; inspect execution error before restarting" r) {
          execution = latest_execution_error o (owner.call t (lists_last_turn thread));
        }),
  lists_last_turn thread ∷ t,
)

abbrev pub judged : Outside → Peer → String → Observation → Option String → Trace → Ending
judged o owner thread r none t = (some (ready_now r), t)
judged o owner thread r (some s) t =
    if s == "systemError" then system_error o owner thread r t else (some (ready_now r), t)

abbrev pub observed_status : Option String → String
observed_status none = "observed"
observed_status (some s) = s

abbrev pub thread_rejected :
    Outside → Peer → String → Observation → Option Bool → Bool → Trace → Ending
thread_rejected o owner thread r none old t = (some (owner_gone r), t)
thread_rejected o owner thread r (some true) old t = (some (login_needed r), t)
thread_rejected o owner thread r (some false) true t =
    judged o owner thread (record r { thread_read = some "unsupported" }) none t
thread_rejected o owner thread r (some false) false t =
    (some (ended unavailable "thread status unavailable" r), t)

abbrev pub after_thread : Outside → Peer → String → Observation → Answer → Trace → Ending
after_thread o owner thread r (answered v) t =
    judged o owner thread (record r { thread_read = some (observed_status (read_status o v)) })
      (read_status o v) t
after_thread o owner thread r (rejected e) t =
    thread_rejected o owner thread r (auth_error o e) (unsupported o e) t
after_thread o owner thread r (broken auth) t =
    (some (ended unavailable "thread status unavailable" r), t)
after_thread o owner thread r crashed t = (some (owner_gone r), t)

abbrev pub after_loaded : Outside → Peer → String → Observation → Bool → Trace → Ending
after_loaded o owner thread r false t = (
  some (
      ended unloaded "conversation is not loaded by this owner"
        (record r { thread_loaded = some false })),
  t,
)
after_loaded o owner thread r true t =
    after_thread o owner thread (record r { thread_loaded = some true })
      (owner.call t (reads_thread thread)) (reads_thread thread ∷ t)

abbrev pub after_ids : Outside → Peer → String → Observation → Option (List Value) → Trace → Ending
after_ids o owner thread r none t = (some (owner_gone r), t)
after_ids o owner thread r (some ids) t =
    if sortable ids
    then after_loaded o owner thread r (any_id (is_text thread) ids) t
    else (some (owner_gone r), t)

abbrev pub unreadable_list : String
unreadable_list = "loaded conversations could not be read"

abbrev pub after_pages : Outside → Peer → String → Observation → Paged × Trace → Ending
after_pages o owner thread r (rows vs, t) = after_ids o owner thread r (loaded_ids vs) t
after_pages o owner thread r (page_rejected e, t) =
    (some (if_auth (auth_error o e) r (because unreadable_list r)), t)
after_pages o owner thread r (page_broken, t) = (some (because unreadable_list r), t)
after_pages o owner thread r (page_crashed, t) = (some (owner_gone r), t)

-- MAX_PAGES
abbrev pub max_pages : ℕ
max_pages = 8

abbrev pub list_threads : Outside → Peer → String → Observation → Trace → Ending
list_threads o owner thread r t =
    after_pages o owner thread r (read_pages owner max_pages none [] [] t)

abbrev pub account_rejected :
    Outside → Peer → String → Observation → Bool → Option Bool → Trace → Ending
account_rejected o owner thread r true auth t =
    list_threads o owner thread (record r { account = account_unsupported }) t
account_rejected o owner thread r false none t = (some (owner_gone r), t)
account_rejected o owner thread r false (some true) t = (some (login_needed r), t)
account_rejected o owner thread r false (some false) t =
    list_threads o owner thread (record r { account = account_unavailable }) t

abbrev pub needs_auth : Account → Bool
needs_auth account_auth_required = true
needs_auth _ = false

abbrev pub account_seen : Outside → Peer → String → Observation → Account → Trace → Ending
account_seen o owner thread r a t =
    if needs_auth a
    then (some (login_needed (record r { account = a })), t)
    else list_threads o owner thread (record r { account = a }) t

abbrev pub after_account : Outside → Peer → String → Observation → Answer → Trace → Ending
after_account o owner thread r (answered v) t =
    account_seen o owner thread r (account_observation v) t
after_account o owner thread r (rejected e) t =
    account_rejected o owner thread r (unsupported o e) (auth_error o e) t
after_account o owner thread r (broken auth) t = (some (owner_failed auth r), t)
after_account o owner thread r crashed t = (some (owner_gone r), t)

-- `except _RpcError` of the whole; a TypeError in it leaves the function.
abbrev pub outer_rejected : Observation → Option Bool → Option Observation
outer_rejected r none = none
outer_rejected r (some true) = some (login_needed r)
outer_rejected r (some false) = some (ended unavailable "owner RPC unavailable" r)

abbrev pub after_notice : Outside → Peer → String → Observation → Answer → Trace → Ending
after_notice o owner thread r (answered v) t =
    after_account o owner thread (record r { transport_reachable = true })
      (owner.call t reads_account) (reads_account ∷ t)
after_notice o owner thread r (rejected e) t = (outer_rejected r (auth_error o e), t)
after_notice o owner thread r (broken auth) t = (some (owner_failed auth r), t)
after_notice o owner thread r crashed t = (some (owner_gone r), t)

abbrev pub after_start : Outside → Peer → String → Observation → Answer → Trace → Ending
after_start o owner thread r (answered v) t =
    after_notice o owner thread r (owner.call t initialized) (initialized ∷ t)
after_start o owner thread r (rejected e) t = (outer_rejected r (auth_error o e), t)
after_start o owner thread r (broken auth) t = (some (owner_failed auth r), t)
after_start o owner thread r crashed t = (some (owner_gone r), t)

abbrev pub after_connect : Outside → Peer → String → Observation → Connected → Ending
after_connect o owner thread r connected =
    after_start o owner thread r (owner.call [] initialize) (initialize ∷ [])
after_connect o owner thread r (refused auth) = (some (owner_failed auth r), [])
after_connect o owner thread r not_connected = (some (owner_gone r), [])

unfoldable pub probe_owner : Outside → Peer → String → String → Ending
unfolding base read_pages loaded_ids any_id latest_execution_error read_status
probe_owner o owner endpoint thread =
    if endpoint == "shared-local" || endpoint == "local"
    then (some (because "owner is not explicit; readiness is unverified" base), [])
    else if not (supported_endpoint o endpoint)
    then (some (because "endpoint is not a supported explicit WebSocket owner" base), [])
    else if thread == ""
    then (some (because "conversation identity is unavailable" base), [])
    else after_connect o owner thread base owner.connect
