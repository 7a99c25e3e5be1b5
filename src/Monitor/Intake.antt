-- ===== src/Monitor/Intake.antt =====
-- `Monitor.ingest`: the checks on the envelope, then one transaction.
use Prim.Native.String.{len}
use codex_monitor.Common.{
  ℕ, suc, ◌+◌, ◌*◌, String, Bool, true, false, not, ◌&&◌, Option, none, some, [], ◌∷◌, ◌++◌, ltb,
  leb, if◌then◌else◌, Result, ok, err, ◌>>=◌, ◌>>◌, require, refuse_if, member, find_row,
  count_rows, any_row, text_append, ◌==◌,
}
use codex_monitor.Json.{
  Value, Fields, object, number, get_field, has_field, only_keys, is_name_value, text_or_empty,
  text_option,
}
use codex_monitor.Json.Numeric.{int, pos}
use codex_monitor.Monitor.State.{
  Binding, Event, pending, ignored, Db, Limits, Codec, second, is_active,
}

-- What the transaction uses of an envelope that passed the checks.
pub record Header : Type 0 where
  pub id : String
  pub source : String
  pub kind : String
  pub trace_id : Option String
  pub encoded : String

pub record Receipt : Type 0 where
  pub delivery_id : String
  pub duplicate : Bool

abbrev pub entries : Value → Result Fields
entries (object fs) = ok fs
entries _ = err 400 "event requires id, source, type and data"

abbrev pub check_name : Option Value → Result (Unit {0})
check_name none = ok tt
check_name (some v) = require (is_name_value v) 400 "invalid identifier"

-- `type(hops) is int and 0 <= hops <= 8`, for a missing entry 0.
abbrev pub is_hop_count : Option Value → Bool
is_hop_count none = true
is_hop_count (some (number (int (pos n)))) = leb n 8
is_hop_count (some _) = false

abbrev pub encode : Option String → Result String
encode none = err 400 "event must contain finite JSON values"
encode (some s) = ok s

unfoldable pub validate : Codec → Value → Result Header
validate codec envelope = do
  fs ← entries envelope
  require
      (has_field "id" fs && (has_field "source" fs && (has_field "type" fs && has_field "data" fs)))
      400 "event requires id, source, type and data"
  require (only_keys ("id" ∷ "source" ∷ "type" ∷ "data" ∷ "trace_id" ∷ "hops" ∷ []) fs) 400
      "unknown event fields"
  check_name (get_field "id" fs)
  check_name (get_field "source" fs)
  check_name (get_field "type" fs)
  check_name (get_field "trace_id" fs)
  require (is_hop_count (get_field "hops" fs)) 400 "hops must be an integer between 0 and 8"
  encoded ← encode (codec.compact envelope)
  refuse_if (ltb 32768 (len encoded)) 413 "event exceeds 32 KiB"
  ok (record {
    id = text_or_empty (get_field "id" fs);
    source = text_or_empty (get_field "source" fs);
    kind = text_or_empty (get_field "type" fs);
    trace_id = text_option (get_field "trace_id" fs);
    encoded = encoded;
  })

abbrev pub named : String → Binding → Bool
named name b = b.name == name

abbrev pub same_event : String → Header → Event → Bool
same_event binding h e = e.binding == binding && (e.source == h.source && e.event_id == h.id)

abbrev pub active_on : String → Event → Bool
active_on binding e = e.binding == binding && is_active e.state

-- `created > now - 60`
abbrev pub recent_on : String → ℕ → Event → Bool
recent_on binding now e = e.binding == binding && ltb now (e.created + 60 * second)

abbrev pub has_trace : Codec → String → Event → Bool
has_trace codec trace e = elim (codec.trace_of e.envelope) [ none ↦ false | some t ↦ t == trace ]

-- `if envelope.get("trace_id")`: the empty text does not count either.
abbrev pub trace_full : Codec → Limits → Option String → Db → Bool
trace_full codec l none db = false
trace_full codec l (some trace) db =
    not (trace == "") && leb l.trace_limit (count_rows (has_trace codec trace) db.events)

abbrev pub with_id : String → Event → Bool
with_id id e = e.id == id

abbrev pub new_event : ℕ → String → ℕ → String → Header → Event
new_event seq fresh now binding h = record {
  seq = seq;
  id = fresh;
  binding = binding;
  source = h.source;
  event_id = h.id;
  envelope = h.encoded;
  client_id = text_append "codex-monitor:" fresh;
  state = if h.kind == "agent.ack" then ignored else pending;
  created = now;
  updated = now;
  attempts = 0;
  next_at = 0;
  submission_id = none;
  error = none;
}

unfoldable pub insert_event : String → ℕ → String → Header → Db → Db
insert_event fresh now binding h db = record db {
  events = db.events ++ new_event db.next_seq fresh now binding h ∷ [];
  next_seq = suc db.next_seq;
}

unfoldable pub admit :
    Codec → Limits → String → ℕ → String → Header → Binding → Db → Result (Db × Receipt)
admit codec l fresh now binding h target db = do
  require (target.enabled && not target.removed) 409 "binding is disabled"
  refuse_if (leb l.max_pending (count_rows (active_on binding) db.events)) 429
      "pending queue capacity reached"
  refuse_if (leb l.rate_limit (count_rows (recent_on binding now) db.events)) 429
      "binding event rate limit reached"
  refuse_if (trace_full codec l h.trace_id db) 429 "trace conversation budget reached"
  refuse_if (any_row (with_id fresh) db.events) 500 "UNIQUE constraint failed: events.id"
  ok (insert_event fresh now binding h db, record { delivery_id = fresh; duplicate = false })

abbrev pub or_refuse {ℓ} : {A : Type ℓ} → Option A → ℕ → String → Result A
or_refuse none c m = err c m
or_refuse (some a) c m = ok a

abbrev pub repeated : Header → Event → Db → Result (Db × Receipt)
repeated h e db =
    if e.envelope == h.encoded
    then ok (db, record { delivery_id = e.id; duplicate = true })
    else err 409 "event ID already used for different content"

-- The answer to an event whose route was found and whose source is allowed there.
unfoldable pub known_or_new :
    Codec
    → Limits
    → String
    → ℕ
    → String
    → Header
    → Binding
    → Db
    → Option Event
    → Result (Db × Receipt)
known_or_new codec l fresh now binding h target db (some e) = repeated h e db
known_or_new codec l fresh now binding h target db none =
    admit codec l fresh now binding h target db

unfoldable pub routed :
    Codec → Limits → String → ℕ → String → Header → Db → Option Binding → Result (Db × Receipt)
unfolding known_or_new
routed codec l fresh now binding h db none = err 404 "unknown binding"
routed codec l fresh now binding h db (some target) = do
  require (member h.source target.sources) 403 "source is not allowed for this binding"
  known_or_new codec l fresh now binding h target db (find_row (same_event binding h) db.events)

unfoldable pub intake : Codec → Limits → String → ℕ → String → Header → Db → Result (Db × Receipt)
unfolding routed
intake codec l fresh now binding h db =
    routed codec l fresh now binding h db (find_row (named binding) db.bindings)

-- `fresh` is the uuid drawn for the delivery, `now` the clock's reading.
unfoldable pub ingest : Codec → Limits → String → ℕ → String → Value → Db → Result (Db × Receipt)
ingest codec l fresh now binding envelope db = do
  h ← validate codec envelope
  intake codec l fresh now binding h db
