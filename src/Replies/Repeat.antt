-- ===== src/Replies/Repeat.antt =====
-- A reply that is added again is recognised, at any later time.
use codex_monitor.Common.{
  ℕ, ◌≡◌, refl, String, Bool, true, some, List, [], ◌∷◌, arith, Bool-cases, inl, inr, Result, ok,
  err, find_row-append, Finds, Finds-append, Finds-update, any_row, ◌==◌, eq_refl,
}
use codex_monitor.Replies.Outbox.{
  StoredReply, Parent, ReplyReceipt, answers, new_reply, repeated_or_added, add, from_source,
  acknowledge, ack, Op, adds, acks, after_add, step, run,
}
use codex_monitor.Replies.Lasting.{IsAdded, stood, put, add_ok}

-- The columns by which a repetition is recognised and answered.
abbrev IsContent : String → String → StoredReply → Type 0
IsContent message id r = ((r.message == message) ≡ true) × (r.id ≡ id)

module _ (parent : Parent) (key message id : String) where
  -- The answer to the parent under the key is in the table, with that message and id.
  abbrev IsAnswered : List StoredReply → Type 0
  IsAnswered = Finds (answers parent key) (IsContent message id)

  IsAdded-IsAnswered :
      (max_pending : ℕ) (fresh : String) (now : ℕ) (rows rows' : List StoredReply)
      (receipt : ReplyReceipt)
      → IsAdded max_pending fresh now parent key message rows rows' receipt
      → receipt.reply_id ≡ id
      → IsAnswered rows'
  unfolding new_reply
  IsAdded-IsAnswered max_pending fresh now rows rows' receipt (stood r f t i e) named =
      rw e (record { row = r; found = f; such = (t, ground (arith, i, named)) })
  IsAdded-IsAnswered max_pending fresh now rows rows' receipt (put f room i e) named =
      rw e (record {
        row = new_reply fresh now parent key message;
        found =
            find_row-append (answers parent key) rows (new_reply fresh now parent key message) f
              (ground (arith, eq_refl parent.id, eq_refl key));
        such = (eq_refl message, ground (arith, i, named));
      })

  step-IsAnswered :
      (blank : String → Bool) (max_pending : ℕ) (rows : List StoredReply) (op : Op)
      → IsAnswered rows
      → IsAnswered (step blank max_pending rows op)
  unfolding step ack
  step-IsAnswered blank max_pending rows (adds fresh now p k m) h =
      go (add blank max_pending fresh now p k m rows) refl
    where
      go :
          (o : Result (List StoredReply × ReplyReceipt))
          → add blank max_pending fresh now p k m rows ≡ o
          → IsAnswered (after_add rows o)
      go (err c w) e = h
      go (ok (rows', receipt)) e =
          elim (add_ok blank max_pending fresh now p k m rows rows' receipt e).2 [
            | stood r f t i same ↦ rw same h
            | put f room i same ↦ rw same (Finds-append _ _ rows _ h)
          ]
  step-IsAnswered blank max_pending rows (acks now source other) h =
      elim (Bool-cases (any_row (from_source source other) rows)) [
        | inl t ↦ rw t (
            Finds-update _ _ (from_source source other) (acknowledge now) (λ r. refl) (λ r c. c)
              rows h)
        | inr t ↦ rw t h
      ]

  run-IsAnswered :
      (blank : String → Bool) (max_pending : ℕ) (rows : List StoredReply) (ops : List Op)
      → IsAnswered rows
      → IsAnswered (run blank max_pending rows ops)
  unfolding run
  run-IsAnswered blank max_pending rows [] h = h
  run-IsAnswered blank max_pending rows (op ∷ ops) h =
      run-IsAnswered blank max_pending (step blank max_pending rows op) ops
        (step-IsAnswered blank max_pending rows op h)

  answered_again :
      (max_pending : ℕ) (fresh : String) (now : ℕ) (rows : List StoredReply) (a : IsAnswered rows)
      → repeated_or_added max_pending fresh now parent key message rows (some a.row)
        ≡ ok (rows, record { reply_id = id; duplicate = true })
  unfolding repeated_or_added
  answered_again max_pending fresh now rows a = rw (a.such.0) (rw (a.such.1) refl)

-- A reply that is added again under its key, with the same message, is answered by the first one's
-- id, marked as a duplicate, and changes nothing: whatever additions and acknowledgements came
-- between, its own among them, and also where the outbox is full.
pub add-add_same :
    (blank : String → Bool) (max_pending : ℕ) (fresh later_fresh : String) (now later : ℕ)
    (parent : Parent) (key message : String) (rows rows' : List StoredReply)
    (receipt : ReplyReceipt) (ops : List Op)
    → add blank max_pending fresh now parent key message rows ≡ ok (rows', receipt)
    → add blank max_pending later_fresh later parent key message (run blank max_pending rows' ops)
      ≡ ok (
        run blank max_pending rows' ops,
        record { reply_id = receipt.reply_id; duplicate = true },
      )
unfolding add
add-add_same blank max_pending fresh later_fresh now later parent key message rows rows' receipt ops
      e =
    let (named, sized, added) =
      add_ok blank max_pending fresh now parent key message rows rows' receipt e in
    let answered = run-IsAnswered parent key message receipt.reply_id blank max_pending rows' ops (
      IsAdded-IsAnswered parent key message receipt.reply_id max_pending fresh now rows rows'
        receipt added refl) in
    let again =
      answered_again parent key message receipt.reply_id max_pending later_fresh later
        (run blank max_pending rows' ops) answered in
    rw named (rw sized (rw (answered.found) again))
