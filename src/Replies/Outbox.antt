-- ===== src/Replies/Outbox.antt =====
-- The table of replies.sqlite3, in the order of `seq`, and the methods of `ReplyStore`. Times are
-- whole microseconds, and a uuid is an argument.
use codex_monitor.Common.{
  ℕ, String, Bool, true, false, not, ◌&&◌, ◌||◌, Option, none, some, List, [], ◌∷◌, ◌++◌, ltb, leb,
  if◌then◌else◌, is_some, Result, ok, err, ◌>>◌, require, refuse_if, find_row, any_row, count_rows,
  select_rows, update_rows, take, ◌==◌,
}
use Prim.Native.String.{len}
use codex_monitor.Json.{is_name}

pub record StoredReply : Type 0 where
  pub id : String
  pub delivery_id : String
  pub reply_key : String
  pub source : String
  pub binding : String
  pub event_id : String
  pub message : String
  pub created : ℕ
  pub acknowledged : Option ℕ

-- What `add` reads of the delivery that is answered.
pub record Parent : Type 0 where
  pub id : String
  pub source : String
  pub binding : String
  pub event_id : String

pub record ReplyReceipt : Type 0 where
  pub reply_id : String
  pub duplicate : Bool

abbrev pub answers : Parent → String → StoredReply → Bool
answers parent key r = r.delivery_id == parent.id && r.reply_key == key

abbrev pub with_reply_id : String → StoredReply → Bool
with_reply_id id r = r.id == id

abbrev pub unacknowledged : StoredReply → Bool
unacknowledged r = not (is_some r.acknowledged)

unfoldable pub new_reply : String → ℕ → Parent → String → String → StoredReply
new_reply fresh now parent key message = record {
  id = fresh;
  delivery_id = parent.id;
  reply_key = key;
  source = parent.source;
  binding = parent.binding;
  event_id = parent.event_id;
  message = message;
  created = now;
  acknowledged = none;
}

unfoldable pub repeated_or_added :
    ℕ
    → String
    → ℕ
    → Parent
    → String
    → String
    → List StoredReply
    → Option StoredReply
    → Result (List StoredReply × ReplyReceipt)
repeated_or_added max_pending fresh now parent key message rows (some r) =
    if r.message == message
    then ok (rows, record { reply_id = r.id; duplicate = true })
    else err 409 "reply id already used for different content"
repeated_or_added max_pending fresh now parent key message rows none = do
  refuse_if (leb max_pending (count_rows unacknowledged rows)) 429 "reply outbox capacity reached"
  refuse_if (any_row (with_reply_id fresh) rows) 500 "UNIQUE constraint failed: replies.id"
  ok (
    rows ++ new_reply fresh now parent key message ∷ [],
    record { reply_id = fresh; duplicate = false },
  )

-- `blank` tells a text that has nothing but white space.
unfoldable pub add :
    (String → Bool)
    → ℕ
    → String
    → ℕ
    → Parent
    → String
    → String
    → List StoredReply
    → Result (List StoredReply × ReplyReceipt)
add blank max_pending fresh now parent key message rows = do
  require (is_name key) 400 "reply id must be a nonempty identifier"
  refuse_if (blank message || ltb 16384 (len message)) 400
      "reply message must be nonempty and at most 16 KiB"
  repeated_or_added max_pending fresh now parent key message rows
      (find_row (answers parent key) rows)

abbrev pub waits_for : String → StoredReply → Bool
waits_for source r = r.source == source && unacknowledged r

unfoldable pub pending_replies : String → ℕ → List StoredReply → Result (List StoredReply)
pending_replies source limit rows = do
  require (leb 1 limit && leb limit 100) 400 "reply limit must be 1..100"
  ok (take limit (select_rows (waits_for source) rows))

-- `id=? AND source=?`
abbrev pub from_source : String → String → StoredReply → Bool
from_source source id r = r.id == id && r.source == source

-- `COALESCE(acknowledged,?)`
abbrev pub acknowledge : ℕ → StoredReply → StoredReply
acknowledge now r = record r {
  acknowledged = elim r.acknowledged [ none ↦ some now | some t ↦ some t ];
}

unfoldable pub ack : ℕ → String → String → List StoredReply → Result (List StoredReply)
ack now source id rows = do
  require (any_row (from_source source id) rows) 404 "reply not found"
  ok (update_rows (from_source source id) (acknowledge now) rows)

pub data Op : Type 0 where
  -- the uuid drawn, the clock, the parent, the key, the message
  adds : String → ℕ → Parent → String → String → Op
  -- the clock, the source, the reply
  acks : ℕ → String → String → Op

abbrev pub after_add :
    List StoredReply → Result (List StoredReply × ReplyReceipt) → List StoredReply
after_add rows (ok (rows', r)) = rows'
after_add rows (err c m) = rows

abbrev pub after_ack : List StoredReply → Result (List StoredReply) → List StoredReply
after_ack rows (ok rows') = rows'
after_ack rows (err c m) = rows

unfoldable pub step : (String → Bool) → ℕ → List StoredReply → Op → List StoredReply
step blank max_pending rows (adds fresh now parent key message) =
    after_add rows (add blank max_pending fresh now parent key message rows)
step blank max_pending rows (acks now source id) = after_ack rows (ack now source id rows)

unfoldable pub run : (String → Bool) → ℕ → List StoredReply → List Op → List StoredReply
unfolding step
run blank max_pending rows [] = rows
run blank max_pending rows (op ∷ ops) = run blank max_pending (step blank max_pending rows op) ops
