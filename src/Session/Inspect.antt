-- ===== src/Session/Inspect.antt =====
-- `inspect` and `reconcile`: a bounded scan of the queue and of the turns for a client's message.
use codex_monitor.Common.{
  ℕ, zero, suc, String, Bool, true, false, ◌&&◌, not, Option, none, some, List, [], ◌∷◌,
  if◌then◌else◌, ◌==◌,
}
use codex_monitor.Json.{
  Value, Items, Fields, nil, cons, end, field, null, boolean, number, text, array, object,
  get_field, entry,
}
use codex_monitor.Json.Numeric.{int, pos, number_eq}
use codex_monitor.Monitor.Dispatch.{retryable, uncertain_submission, unexpected}
use codex_monitor.Session.Rpc.{
  Request, lists_queue, lists_turns, Answer, answered, rejected, failed, Remote, Session, pure,
  raise, ◌>>=◌, ◌>>◌, call,
}
use codex_monitor.Session.Errors.{operation_error}
use codex_monitor.Session.Target.{Kind, check_target, raise_pair}

pub data ListKind : Type 0 where
  queue turns : ListKind

abbrev pub page : ListKind → String → Option Value → Request
page queue thread cursor = lists_queue thread cursor
page turns thread cursor = lists_turns thread cursor

-- `value.get(key) == s` of a dict's entries.
abbrev pub entry_is : String → String → Fields → Bool
entry_is key s fs = elim (get_field key fs) [ some (text t) ↦ t == s | _ ↦ false ]

-- What a row comes to: no match, the submission's id, or an exception of another class.
pub data Found : Type 0 where
  missing : Found
  matching : Value → Found
  broken : String → Found

abbrev or_else : Found → Found → Found
or_else missing rest = rest
or_else other rest = other

abbrev id_or : Value → Option Value → Value
id_or default none = default
id_or default (some v) = v

abbrev item_of : String → Fields → Found
item_of client fs =
    if entry_is "type" "userMessage" fs && entry_is "clientId" client fs
    then matching (id_or (text client) (get_field "id" fs))
    else missing

abbrev item_found : String → Value → Found
item_found client (object fs) = item_of client fs
item_found client _ = broken "AttributeError"

unfoldable pub items_found : String → Items → Found
items_found client nil = missing
items_found client (cons v vs) = or_else (item_found client v) (items_found client vs)

abbrev text_items : String → Found
text_items String.[] = missing
text_items (String.◌∷◌ c s) = broken "AttributeError"

abbrev key_items : Fields → Found
key_items end = missing
key_items (field k v fs) = broken "AttributeError"

-- `for item in row.get("items", [])`; a text or a dict has texts for its items.
unfoldable pub row_items : String → Option Value → Found
unfolding items_found
row_items client none = missing
row_items client (some (array vs)) = items_found client vs
row_items client (some (text s)) = text_items s
row_items client (some (object fs)) = key_items fs
row_items client (some _) = broken "TypeError"

abbrev row_id : Option Value → Found
row_id none = broken "KeyError"
row_id (some v) = matching v

abbrev row_found : String → Value → Found
row_found client (object fs) =
    if entry_is "clientUserMessageId" client fs
    then row_id (get_field "id" fs)
    else row_items client (get_field "items" fs)
row_found client _ = broken "AttributeError"

unfoldable pub rows_found : String → Items → Found
unfolding row_items
rows_found client nil = missing
rows_found client (cons v vs) = or_else (row_found client v) (rows_found client vs)

-- `for row in result["data"]`
unfoldable pub page_found : String → Value → Found
unfolding rows_found
page_found client v = elim (entry "data" v) [
  | none ↦ broken "KeyError"
  | some (array vs) ↦ rows_found client vs
  | some (text s) ↦ text_items s
  | some (object fs) ↦ key_items fs
  | some _ ↦ broken "TypeError"
]

abbrev pub is_zero : Value → Bool
is_zero (number a) = number_eq a (int (pos 0))
is_zero _ = false

abbrev pub falsy : Value → Bool
falsy null = true
falsy (boolean b) = not b
falsy (text s) = s == ""
falsy (array nil) = true
falsy (object end) = true
falsy v = is_zero v

-- `result.get("nextCursor")`, where it is true.
unfoldable pub next_cursor : Value → Option Value
next_cursor v = elim (entry "nextCursor" v) [
  | none ↦ none
  | some c ↦ if falsy c then none else some c
]

-- A cursor can be put into a set.
abbrev pub hashable : Value → Bool
hashable (array vs) = false
hashable (object fs) = false
hashable _ = true

abbrev same_cursor : Value → Value → Bool
same_cursor (text s) (text t) = s == t
same_cursor (number a) (number b) = number_eq a b
same_cursor (boolean a) (boolean b) = if a then b else not b
same_cursor (boolean a) (number b) = number_eq (int (pos (if a then 1 else 0))) b
same_cursor (number a) (boolean b) = number_eq a (int (pos (if b then 1 else 0)))
same_cursor _ _ = false

unfoldable pub seen_cursor : Value → List Value → Bool
seen_cursor c [] = false
seen_cursor c (d ∷ ds) = if same_cursor d c then true else seen_cursor c ds

pub data Scan : Type 0 where
  -- the message, in the list that was scanned
  located : ListKind → Value → Scan
  -- the list has no such message; the pages that may still be read
  exhausted : ℕ → Scan

-- A next page may be read: its cursor is new.
abbrev pub check_cursor : Value → List Value → Session (Unit {0})
check_cursor c seen =
    if not (hashable c)
    then raise unexpected "TypeError: unhashable type"
    else if seen_cursor c seen
    then raise retryable "delivery reconciliation returned a repeated pagination cursor"
    else pure tt

abbrev limit_sentence : String
limit_sentence = "delivery reconciliation scan limit reached; acceptance unknown"

-- A page that was read, with what was found on it and its next cursor.
abbrev pub read_page :
    ListKind → ℕ → List Value → (Value → Session Scan) → Found → Option Value → Session Scan
read_page kind left seen next (matching id) cursor = pure (located kind id)
read_page kind left seen next (broken m) cursor = raise unexpected m
read_page kind left seen next missing none = pure (exhausted left)
read_page kind left seen next missing (some c) = check_cursor c seen >> next c

-- The answer for one page; `next` reads on from a cursor.
abbrev pub read_answer :
    ListKind → String → ℕ → List Value → (Value → Session Scan) → Answer → Session Scan
read_answer kind client left seen next (rejected e) =
    raise_pair (operation_error "delivery reconciliation" e)
read_answer kind client left seen next (failed f m) = raise f m
read_answer kind client left seen next (answered v) =
    read_page kind left seen next (page_found client v) (next_cursor v)

abbrev pub when_in_time : Bool → Session Scan → Session Scan
when_in_time true next = raise uncertain_submission limit_sentence
when_in_time false next = next

-- The loop over one list. The number counts the pages that may still be read.
unfoldable pub scan :
    Remote → ListKind → String → String → ℕ → Option Value → List Value → Session Scan
unfolding page_found next_cursor
scan remote kind thread client zero cursor seen = raise uncertain_submission limit_sentence
scan remote kind thread client (suc left) cursor seen = λ trace.
    when_in_time (remote.late trace)
      (call remote (page kind thread cursor)
        >>= read_answer kind client left seen
            (λ c. scan remote kind thread client left (some c) (c ∷ seen)))
      trace

pub data Inspection : Type 0 where
  present : ListKind → Value → Inspection
  unknown : Inspection

abbrev pub scanned_turns : Scan → Session Inspection
scanned_turns (located kind id) = pure (present kind id)
scanned_turns (exhausted left) = pure unknown

abbrev pub scanned_queue : Remote → String → String → Scan → Session Inspection
scanned_queue remote thread client (located kind id) = pure (present kind id)
scanned_queue remote thread client (exhausted left) = do
  found ← scan remote turns thread client left none []
  scanned_turns found

unfoldable pub inspect : Remote → Kind → ℕ → String → String → Session Inspection
unfolding scan
inspect remote kind max_pages thread client = do
  check_target remote kind thread
  found ← scan remote queue thread client max_pages none []
  scanned_queue remote thread client found

-- `reconcile`: the submission's id, or None.
abbrev pub submission_of : Inspection → Option Value
submission_of (present kind id) = some id
submission_of unknown = none

unfoldable pub reconcile : Remote → Kind → ℕ → String → String → Session (Option Value)
unfolding inspect
reconcile remote kind max_pages thread client = do
  found ← inspect remote kind max_pages thread client
  pure (submission_of found)
