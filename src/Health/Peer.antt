-- ===== src/Health/Peer.antt =====
-- An owner that may answer each call as it likes, and what a probe of it observes.
use codex_monitor.Common.{String, Bool, true, false, Option, none, some, List}
use codex_monitor.Json.{Value}
use codex_monitor.Health.Words.{Fault}
use codex_monitor.Health.Answers.{Account, account_unverified}

-- The calls of a probe; `initialized` is a notification.
pub data Query : Type 0 where
  initialize initialized reads_account : Query
  lists_loaded : Option String → Query
  reads_thread : String → Query
  lists_last_turn : String → Query

-- What a call comes to: its result, _RpcError, OwnerProbeError (whose kind may be "auth-required"),
-- or any other exception.
pub data Answer : Type 0 where
  answered : Value → Answer
  rejected : Fault → Answer
  broken : Bool → Answer
  crashed : Answer

-- The calls so far, the latest first.
abbrev pub Trace : Type 0
Trace = List Query

pub data Connected : Type 0 where
  connected : Connected
  refused : Bool → Connected
  not_connected : Connected

pub record Peer : Type 0 where
  pub connect : Connected
  pub call : Trace → Query → Answer

pub data Status : Type 0 where
  unverified auth_required unloaded unavailable execution_error ready_to_receive : Status

-- `execution_error`, without the text of the message.
pub data Execution : Type 0 where
  not_asked execution_unsupported execution_unavailable : Execution
  failed_turn : (auth : Bool) → Execution

pub record Observation : Type 0 where
  pub status : Status
  pub ready : Bool
  pub transport_reachable : Bool
  pub thread_loaded : Option Bool
  pub account : Account
  pub thread_read : Option String
  pub execution : Execution
  pub reason : Option String

-- What `probe_owner` comes to; `none` where an exception leaves it.
abbrev pub Ending : Type 0
Ending = Option Observation × Trace

unfoldable pub base : Observation
base = record {
  status = unverified;
  ready = false;
  transport_reachable = false;
  thread_loaded = none;
  account = account_unverified;
  thread_read = none;
  execution = not_asked;
  reason = none;
}

abbrev pub because : String → Observation → Observation
because reason r = record r { reason = some reason }

abbrev pub ended : Status → String → Observation → Observation
ended status reason r = record r { status = status; reason = some reason }

abbrev pub login_needed : Observation → Observation
login_needed = ended auth_required "authentication required"

-- The last `except` clause.
abbrev pub owner_gone : Observation → Observation
owner_gone = ended unavailable "owner unavailable"

-- `except OwnerProbeError`
abbrev pub owner_failed : Bool → Observation → Observation
owner_failed true = login_needed
owner_failed false = owner_gone

-- `_auth_error` in a handler inside the `try`; its TypeError is caught by the last clause.
abbrev pub if_auth : Option Bool → Observation → Observation → Observation
if_auth none r other = owner_gone r
if_auth (some true) r other = login_needed r
if_auth (some false) r other = other
