-- ===== src/Monitor/Routes.antt =====
-- The methods of `Monitor` on routes: bind, rebind, enable and dashboard_action.
use codex_monitor.Common.{
  ℕ, suc, String, Bool, true, false, not, ◌&&◌, ◌||◌, Option, none, some, List, [], ◌∷◌, ◌++◌,
  if◌then◌else◌, Result, ok, err, ◌>>=◌, ◌>>◌, require, refuse_if, member, find_row, any_row,
  update_rows, ◌==◌, eqb,
}
use Prim.Native.Char.{code}
use codex_monitor.Json.{is_name}
use codex_monitor.Endpoint.{Url, validate_endpoint}
use codex_monitor.Monitor.State.{
  Binding, Event, EventState, submitting, uncertain, ManagedWatch, Db,
}
use codex_monitor.Monitor.Intake.{named}

abbrev pub managed_source : String
managed_source = "managed/file"

abbrev all_names : List String → Bool
all_names [] = true
all_names (s ∷ ss) = is_name s && all_names ss

abbrev is_empty {ℓ} : {A : Type ℓ} → List A → Bool
is_empty [] = true
is_empty (_ ∷ _) = false

-- `"/" in name`, and of any character.
unfoldable pub has_char : ℕ → String → Bool
has_char c String.[] = false
has_char c (String.◌∷◌ d s) = if eqb (code d) c then true else has_char c s

abbrev pub new_binding : String → String → String → List String → Binding
new_binding name thread endpoint sources = record {
  name = name;
  thread = thread;
  endpoint = endpoint;
  sources = sources;
  enabled = true;
  removed = false;
}

-- INSERT INTO bindings; `name` is the primary key.
abbrev pub insert_binding : Binding → Db → Result Db
insert_binding b db =
    if any_row (named b.name) db.bindings
    then err 500 "UNIQUE constraint failed: bindings.name"
    else ok (record db { bindings = db.bindings ++ b ∷ [] })

unfoldable pub bind : String → String → String → List String → Db → Result Db
unfolding has_char
bind name thread endpoint sources db = do
  refuse_if (member managed_source sources) 403
      "reserved managed source cannot be registered externally"
  require
      (is_name name
        && (is_name thread && all_names sources)
        && (not (is_empty sources) && not (has_char 47 name)))
      400 "binding, thread and sources must be nonempty identifiers"
  insert_binding (new_binding name thread endpoint sources) db

abbrev pub in_flight : EventState → Bool
in_flight submitting = true
in_flight uncertain = true
in_flight _ = false

abbrev pub in_flight_on : String → Event → Bool
in_flight_on name e = e.binding == name && in_flight e.state

abbrev pub watch_of : String → ManagedWatch → Bool
watch_of binding w = w.binding == binding

abbrev same_route : String → String → Option Binding → Bool
same_route thread endpoint none = false
same_route thread endpoint (some b) = b.thread == thread && b.endpoint == endpoint

abbrev retired : Option Binding → Bool
retired none = false
retired (some b) = b.removed

unfoldable pub rebind : (String → Option Url) → String → String → String → String → Db → Result Db
rebind urlsplit name thread previous endpoint db = do
  target ← validate_endpoint urlsplit endpoint
  require (same_route thread previous (find_row (named name) db.bindings)) 409
      "route identity changed; inspect before reconnecting"
  refuse_if (retired (find_row (named name) db.bindings)) 409 "binding has been retired"
  refuse_if (any_row (watch_of name) db.watches) 409
      "managed routes require their monitor lifecycle workflow"
  refuse_if (any_row (in_flight_on name) db.events) 409
      "in-flight or uncertain input must settle before reconnecting"
  ok (record db {
    bindings = update_rows (named name) (λ b. record b { endpoint = target }) db.bindings;
  })

abbrev pub live_named : String → Binding → Bool
live_named name b = b.name == name && not b.removed

abbrev may_enable : Bool → Option Binding → Result (Unit {0})
may_enable false row = ok tt
may_enable true none = err 404 "unknown binding"
may_enable true (some b) = refuse_if b.removed 409 "binding has been retired"

-- `enable(binding, enabled)`
unfoldable pub set_enabled : String → Bool → Db → Result Db
set_enabled name enabled db = do
  may_enable enabled (find_row (named name) db.bindings)
  require (any_row (live_named name) db.bindings) 404 "unknown binding"
  ok (record db {
    bindings = update_rows (live_named name) (λ b. record b { enabled = enabled }) db.bindings;
  })

pub data Action : Type 0 where
  pause resume remove : Action

abbrev pub enables : Action → Bool
enables resume = true
enables _ = false

abbrev pub removes : Action → Bool
removes remove = true
removes _ = false

abbrev pub exact_route : String → String → String → Binding → Bool
exact_route name thread endpoint b =
    b.name == name && (b.thread == thread && (b.endpoint == endpoint && not b.removed))

abbrev watch_retired : Option ManagedWatch → Bool
watch_retired none = false
watch_retired (some w) = w.removed

abbrev pub live_watch_of : String → ManagedWatch → Bool
live_watch_of binding w = w.binding == binding && not w.removed

abbrev pub worker_after : Bool → String
worker_after true = "starting"
worker_after false = "stopped"

-- Actions other than these three are refused before the transaction.
unfoldable pub dashboard_action : ℕ → String → String → String → Action → Db → Result Db
dashboard_action now name thread endpoint action db = do
  refuse_if (name == "" || (thread == "" || endpoint == "")) 400
      "dashboard route identity is invalid"
  require (any_row (exact_route name thread endpoint) db.bindings) 409
      "selected route changed or no longer exists"
  refuse_if (watch_retired (find_row (watch_of name) db.watches)) 409
      "selected managed route has been retired"
  ok (record db {
    bindings =
        update_rows (exact_route name thread endpoint)
          (λ b. record b { enabled = enables action; removed = removes action }) db.bindings;
    watches =
        update_rows (live_watch_of name)
          (λ w. record w {
            enabled = enables action;
            removed = removes action;
            worker_state = worker_after (enables action);
            updated = now;
            lifecycle_epoch = suc w.lifecycle_epoch;
          })
          db.watches;
  })
