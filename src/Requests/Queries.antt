-- ===== src/Requests/Queries.antt =====
-- `get`, `get_by_id`, `create_for_parent`, `list_requests` and `history`.
use codex_monitor.Common.{
  ℕ, suc, String, Bool, false, not, ◌&&◌, Option, none, some, List, [], ◌∷◌, ltb, leb,
  if◌then◌else◌, Result, ok, err, ◌>>=◌, ◌>>◌, require, refuse_if, find_row, select_rows, length,
  take, ◌==◌,
}
use codex_monitor.Json.{Value, Fields, object, get_field, has_field, text_or_empty, is_text, null}
use codex_monitor.Requests.State.{
  Request, Update, Store, Capacity, Encoding, with_request_id, at_key, decode_object,
}
use codex_monitor.Requests.Updates.{Reply, record_of}
use codex_monitor.Requests.Lifecycle.{identifier, create}

abbrev pub optional_identifier : Option String → Result (Unit {0})
optional_identifier none = ok tt
optional_identifier (some s) = identifier s

abbrev unlike : String → Option String → Bool
unlike actual none = false
unlike actual (some s) = not (actual == s)

-- `_check_scope` and `_record`.
abbrev pub in_scope : Encoding → Option String → Option String → Option Request → Result Reply
in_scope enc conversation source none = err 404 "request not found"
in_scope enc conversation source (some r) = do
  refuse_if (unlike r.conversation_id conversation) 404 "request not found"
  refuse_if (unlike r.source source) 404 "request not found"
  record_of enc r false

unfoldable pub get_by_id : Encoding → String → Option String → Option String → Store → Result Reply
get_by_id enc id conversation source db = do
  identifier id
  optional_identifier conversation
  optional_identifier source
  in_scope enc conversation source (find_row (with_request_id id) db.requests)

unfoldable pub get : Encoding → String → String → String → Store → Result Reply
get enc conversation source key db = do
  identifier conversation
  identifier source
  identifier key
  in_scope enc none none (find_row (at_key conversation source key) db.requests)

abbrev parent_conversation : Fields → Option Value
parent_conversation fs = elim (get_field "conversation_id" fs) [
  | some v ↦ some v
  | none ↦ get_field "thread" fs
]

-- `parent_conversation is not None and parent_conversation != conversation_id`
abbrev other_conversation : String → Option Value → Bool
other_conversation conversation none = false
other_conversation conversation (some null) = false
other_conversation conversation (some v) = not (is_text conversation v)

abbrev receipt_fields : Value → Result Fields
receipt_fields (object fs) = ok fs
receipt_fields _ = err 400 "known parent delivery receipt is required"

-- A value of `parent` that is no text is refused as an identifier.
unfoldable pub create_for_parent :
    Encoding
    → Capacity
    → String
    → ℕ
    → String
    → Value
    → String
    → Value
    → Option ℕ
    → Option ℕ
    → Store
    → Result (Store × Reply)
unfolding create
create_for_parent enc c fresh now conversation parent key payload expires_at expires_in db = do
  fs ← receipt_fields parent
  require (has_field "id" fs && (has_field "binding" fs && has_field "source" fs)) 400
      "known parent delivery receipt is required"
  refuse_if (other_conversation conversation (parent_conversation fs)) 404
      "known parent delivery belongs to another conversation"
  create enc c fresh now conversation (text_or_empty (get_field "source" fs)) key
      (text_or_empty (get_field "id" fs)) (text_or_empty (get_field "binding" fs)) payload
      expires_at expires_in db

-- The rows with their `seq`. Rows are never deleted, and a transaction that is rolled back draws no
-- number, so the rows are numbered from 1 on.
unfoldable pub numbered : ℕ → List Request → List (ℕ × Request)
numbered n [] = []
numbered n (r ∷ rs) = (n, r) ∷ numbered (suc n) rs

-- `source is None` leaves out the condition on the source.
abbrev pub listed_in : String → Option String → Request → Bool
listed_in conversation none r = r.conversation_id == conversation
listed_in conversation (some source) r = r.conversation_id == conversation && r.source == source

abbrev pub behind : String → Option String → ℕ → ℕ × Request → Bool
behind conversation source cursor p = listed_in conversation source p.1 && ltb cursor p.0

unfoldable pub records : Encoding → List (ℕ × Request) → Result (List Reply)
records enc [] = ok []
records enc (p ∷ ps) = do
  reply ← record_of enc p.1 false
  replies ← records enc ps
  ok (reply ∷ replies)

unfoldable pub last_seq : List (ℕ × Request) → Option ℕ
last_seq [] = none
last_seq (p ∷ []) = some p.0
last_seq (p ∷ q ∷ ps) = last_seq (q ∷ ps)

-- `data` and `next`, which is written in decimal.
pub record Page : Type 0 where
  pub rows : List Reply
  pub next : Option ℕ

abbrev pub page_of : Encoding → ℕ → List (ℕ × Request) → Result Page
page_of enc limit found = do
  replies ← records enc (take limit found)
  ok (record {
    rows = replies;
    next = if ltb limit (length found) then last_seq (take limit found) else none;
  })

-- `after`: None, a nonnegative integer as a number or in a text that `int` reads as that number (as
-- it does `str(seq)`, the cursor that a page names), or anything else.
pub data After : Type 0 where
  from_start : After
  behind_seq : ℕ → After
  unreadable : After

abbrev pub cursor_of : After → Result ℕ
cursor_of from_start = ok 0
cursor_of (behind_seq n) = ok n
cursor_of unreadable = err 400 "request cursor must be a nonnegative integer"

unfoldable pub list_requests : Encoding → String → Option String → ℕ → After → Store → Result Page
unfolding numbered records last_seq
list_requests enc conversation source limit after db = do
  identifier conversation
  optional_identifier source
  require (leb 1 limit && leb limit 100) 400 "request limit must be 1..100"
  cursor ← cursor_of after
  page_of enc limit
      (take (suc limit) (select_rows (behind conversation source cursor) (numbered 1 db.requests)))

-- ORDER BY revision; the rows of one request have different revisions.
unfoldable pub insert_update : Update → List Update → List Update
insert_update u [] = u ∷ []
insert_update u (v ∷ vs) =
    let rest = insert_update u vs in if ltb u.revision v.revision then u ∷ v ∷ vs else v ∷ rest

unfoldable pub sort_updates : List Update → List Update
unfolding insert_update
sort_updates [] = []
sort_updates (u ∷ us) = insert_update u (sort_updates us)

abbrev summary_of : Encoding → Option String → Result (Option Value)
summary_of enc none = ok none
summary_of enc (some s) = do v ← decode_object enc s; ok (some v)

unfoldable pub with_summaries : Encoding → List Update → Result (List (Update × Option Value))
with_summaries enc [] = ok []
with_summaries enc (u ∷ us) = do
  summary ← summary_of enc u.summary
  rest ← with_summaries enc us
  ok ((u, summary) ∷ rest)

unfoldable pub history :
    Encoding → String → String → String → Store → Result (List (Update × Option Value))
unfolding get sort_updates with_summaries
history enc conversation source key db = do
  reply ← get enc conversation source key db
  with_summaries enc
      (sort_updates (select_rows (λ u. u.request_id == reply.request.request_id) db.updates))
