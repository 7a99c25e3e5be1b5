-- ===== src/Session/Rpc.antt =====
-- The connection of a session, and code that calls it. What `Rpc.call` returns or raises is a
-- parameter; it may depend on all earlier calls.
use codex_monitor.Common.{String, Bool, Option, List, ◌∷◌}
use codex_monitor.Json.{Value}
use codex_monitor.Monitor.Dispatch.{Failure}

-- The calls that the sessions make.
pub data Request : Type 0 where
  lists_loaded : Request
  checks_queue : String → Request
  -- the thread, the client's id of the message, the text
  adds_message : String → String → String → Request
  -- a page of the queue or of the turns: the thread and the cursor
  lists_queue : String → Option Value → Request
  lists_turns : String → Option Value → Request

-- RpcError: the error of a response.
pub record RpcError : Type 0 where
  pub code : Option Value
  pub message : String

pub data Answer : Type 0 where
  answered : Value → Answer
  rejected : RpcError → Answer
  failed : Failure → String → Answer

-- The calls so far, the latest first.
abbrev pub Trace : Type 0
Trace = List Request

pub record Remote : Type 0 where
  pub call : Trace → Request → Answer
  -- whether the deadline of a reconciliation has passed by the clock
  pub late : Trace → Bool

pub data Attempt {ℓ} (A : Type ℓ) : Type ℓ where
  done : A → Attempt A
  raises : Failure → String → Attempt A

-- Code that makes calls: from the calls so far to its result and all calls.
abbrev pub Session {ℓ} : Type ℓ → Type ℓ
Session A = Trace → Attempt A × Trace

abbrev pub pure {ℓ} : {A : Type ℓ} → A → Session A
pure a trace = (done a, trace)

abbrev pub raise {ℓ} : {A : Type ℓ} → Failure → String → Session A
raise f m trace = (raises f m, trace)

abbrev pub continue {ℓ κ} : {A : Type ℓ} {B : Type κ} → Attempt A → (A → Session B) → Session B
continue (done a) k trace = k a trace
continue (raises f m) k trace = (raises f m, trace)

infixl 5 ◌>>=◌ ◌>>◌
abbrev pub ◌>>=◌ {ℓ κ} : {A : Type ℓ} {B : Type κ} → Session A → (A → Session B) → Session B
m >>= k = λ trace. continue (m trace).0 k (m trace).1

abbrev pub ◌>>◌ {ℓ} : {B : Type ℓ} → Session (Unit {0}) → Session B → Session B
m >> k = m >>= λ u. k

-- `self.rpc.call(...)`, with its answer as a value.
abbrev pub call : Remote → Request → Session Answer
call remote request trace = (done (remote.call trace request), request ∷ trace)
