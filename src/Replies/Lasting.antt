-- ===== src/Replies/Lasting.antt =====
-- Replies stay until they are acknowledged, and fit the outbox.
use codex_monitor.Common.{
  ℕ, ◌+◌, ◌≤◌, ◌≡◌, refl, sym, subst, String, Bool, true, false, ◌||◌, Option, none, some, List, [],
  ◌∷◌, ◌++◌, arith, ltb, leb, Bool-cases, inl, inr, Result, ok, err, require_ok, refuse_if_ok,
  find_row, find_row-append_some, any_row, find_row-update_other, count_rows, count_rows-append,
  count_rows-update_le, update_rows, All, ◌==◌, eq_iff,
}
use Prim.Native.String.{len}
use codex_monitor.Json.{is_name}
use codex_monitor.Replies.Outbox.{
  StoredReply, Parent, ReplyReceipt, answers, with_reply_id, unacknowledged, new_reply,
  repeated_or_added, add, from_source, acknowledge, ack, Op, adds, acks, after_add, step, run,
}

-- The outcome of `add`: the reply stood there, or it was put at the end.
pub data IsAdded (max_pending : ℕ) (fresh : String) (now : ℕ) (parent : Parent)
    (key message : String) (rows rows' : List StoredReply) (receipt : ReplyReceipt) : Type 0 where
  stood :
      (r : StoredReply)
      → find_row (answers parent key) rows ≡ some r
      → (r.message == message) ≡ true
      → receipt.reply_id ≡ r.id
      → rows' ≡ rows
      → IsAdded max_pending fresh now parent key message rows rows' receipt
  put :
      find_row (answers parent key) rows ≡ none
      → count_rows unacknowledged rows + 1 ≤ max_pending
      → receipt.reply_id ≡ fresh
      → rows' ≡ rows ++ new_reply fresh now parent key message ∷ []
      → IsAdded max_pending fresh now parent key message rows rows' receipt

IsAdded-cases :
    (max_pending : ℕ) (fresh : String) (now : ℕ) (parent : Parent) (key message : String)
    (rows rows' : List StoredReply) (receipt : ReplyReceipt) (o : Option StoredReply)
    → find_row (answers parent key) rows ≡ o
    → repeated_or_added max_pending fresh now parent key message rows o ≡ ok (rows', receipt)
    → IsAdded max_pending fresh now parent key message rows rows' receipt
unfolding repeated_or_added
IsAdded-cases max_pending fresh now parent key message rows rows' receipt (some r) f e =
    elim (Bool-cases (r.message == message)) [
      | inl t ↦ stood r f t (ground arith) (ground arith)
      | inr t ↦ absurd (ground arith)
    ]
IsAdded-cases max_pending fresh now parent key message rows rows' receipt none f e =
    let (room, e1) =
      refuse_if_ok (leb max_pending (count_rows unacknowledged rows)) 429
        "reply outbox capacity reached" _ e in
    let (_, e2) =
      refuse_if_ok (any_row (with_reply_id fresh) rows) 500 "UNIQUE constraint failed: replies.id" _
        e1 in
    put f (ground arith) (ground arith) (ground arith)

pub add_ok :
    (blank : String → Bool) (max_pending : ℕ) (fresh : String) (now : ℕ) (parent : Parent)
    (key message : String) (rows rows' : List StoredReply) (receipt : ReplyReceipt)
    → add blank max_pending fresh now parent key message rows ≡ ok (rows', receipt)
    → (is_name key ≡ true)
      × ((blank message || ltb 16384 (len message)) ≡ false)
      × IsAdded max_pending fresh now parent key message rows rows' receipt
unfolding add
add_ok blank max_pending fresh now parent key message rows rows' receipt e =
    let (named, e1) = require_ok (is_name key) 400 "reply id must be a nonempty identifier" _ e in
    let (sized, e2) =
      refuse_if_ok (blank message || ltb 16384 (len message)) 400
        "reply message must be nonempty and at most 16 KiB" _ e1 in
    (
      named,
      sized,
      IsAdded-cases max_pending fresh now parent key message rows rows' receipt
          (find_row (answers parent key) rows) refl e2,
    )

-- The reply `r` is the table's row of its id.
abbrev pub IsKept : StoredReply → List StoredReply → Type 0
IsKept r rows = find_row (with_reply_id r.id) rows ≡ some r

-- An acknowledgement of another reply.
abbrev pub Spares : String → Op → Type 0
Spares id (adds fresh now parent key message) = Unit
Spares id (acks now source other) = (other == id) ≡ false

ack_IsKept :
    (now : ℕ) (source id : String) (r : StoredReply) (rows : List StoredReply)
    → (id == r.id) ≡ false
    → IsKept r rows
    → IsKept r (update_rows (from_source source id) (acknowledge now) rows)
ack_IsKept now source id r rows other kept =
    subst (λ o. o ≡ some r)
      (sym (
        find_row-update_other (with_reply_id r.id) (from_source source id) (acknowledge now)
          (λ a. refl)
          (λ a h. ground (arith, other, eq_iff a.id r.id, eq_iff a.id id, eq_iff id r.id)) rows))
      kept

step-IsKept :
    (blank : String → Bool) (max_pending : ℕ) (rows : List StoredReply) (op : Op) (r : StoredReply)
    → Spares r.id op
    → IsKept r rows
    → IsKept r (step blank max_pending rows op)
unfolding step ack
step-IsKept blank max_pending rows (adds fresh now parent key message) r other kept =
    go (add blank max_pending fresh now parent key message rows) refl
  where
    go :
        (o : Result (List StoredReply × ReplyReceipt))
        → add blank max_pending fresh now parent key message rows ≡ o
        → IsKept r (after_add rows o)
    go (err c m) e = kept
    go (ok (rows', receipt)) e =
        elim (add_ok blank max_pending fresh now parent key message rows rows' receipt e).2 [
          | stood s f t i same ↦ subst (IsKept r) (sym same) kept
          | put f room i same ↦
              subst (IsKept r) (sym same) (find_row-append_some (with_reply_id r.id) rows _ r kept)
        ]
step-IsKept blank max_pending rows (acks now source id) r other kept =
    elim (Bool-cases (any_row (from_source source id) rows)) [
      | inl t ↦ rw t (ack_IsKept now source id r rows other kept)
      | inr t ↦ rw t kept
    ]

-- No reply is lost: whatever happens, a stored reply stays in the table as it is, until it is
-- acknowledged itself.
pub run-IsKept :
    (blank : String → Bool) (max_pending : ℕ) (rows : List StoredReply) (ops : List Op)
    (r : StoredReply)
    → All (Spares r.id) ops
    → IsKept r rows
    → IsKept r (run blank max_pending rows ops)
unfolding run
run-IsKept blank max_pending rows [] r others kept = kept
run-IsKept blank max_pending rows (op ∷ ops) r others kept =
    run-IsKept blank max_pending (step blank max_pending rows op) ops r others.1
      (step-IsKept blank max_pending rows op r others.0 kept)

step_within :
    (blank : String → Bool) (max_pending : ℕ) (rows : List StoredReply) (op : Op)
    → count_rows unacknowledged rows ≤ max_pending
    → count_rows unacknowledged (step blank max_pending rows op) ≤ max_pending
unfolding step ack new_reply
step_within blank max_pending rows (adds fresh now parent key message) within =
    go (add blank max_pending fresh now parent key message rows) refl
  where
    go :
        (o : Result (List StoredReply × ReplyReceipt))
        → add blank max_pending fresh now parent key message rows ≡ o
        → count_rows unacknowledged (after_add rows o) ≤ max_pending
    go (err c m) e = within
    go (ok (rows', receipt)) e =
        elim (add_ok blank max_pending fresh now parent key message rows rows' receipt e).2 [
          | stood s f t i same ↦ rw same within
          | put f room i same ↦
              let one =
                count_rows-append unacknowledged rows (new_reply fresh now parent key message) in
              rw same (omega (arith, one, room))
        ]
step_within blank max_pending rows (acks now source id) within =
    let fewer =
      count_rows-update_le unacknowledged (from_source source id) (acknowledge now)
        (λ a p q. ground arith) rows in
    elim (Bool-cases (any_row (from_source source id) rows)) [
      | inl t ↦ rw t (omega (arith, fewer, within))
      | inr t ↦ rw t within
    ]

-- Whatever happens, no more than `max_pending` replies wait for their acknowledgement, if no more
-- waited before.
pub run_within :
    (blank : String → Bool) (max_pending : ℕ) (rows : List StoredReply) (ops : List Op)
    → count_rows unacknowledged rows ≤ max_pending
    → count_rows unacknowledged (run blank max_pending rows ops) ≤ max_pending
unfolding run
run_within blank max_pending rows [] within = within
run_within blank max_pending rows (op ∷ ops) within =
    run_within blank max_pending (step blank max_pending rows op) ops
      (step_within blank max_pending rows op within)
