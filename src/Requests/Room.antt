-- ===== src/Requests/Room.antt =====
-- The room that the outbox keeps for the end of every request.
use codex_monitor.Common.{
  ℕ, ◌+◌, ◌≤◌, ◌≡◌, ◌≢◌, String, Bool, true, false, not, ◌&&◌, Option, none, some, List, [], ◌∷◌,
  arith, leb, err, count_rows, count_rows-append, count_rows-update_le, any_row, any_row-find_row,
  any_row-count_rows, bind_err, refuse_if_err, require_err, inl, inr,
}
use codex_monitor.Json.{Value, null, boolean, number, text, array, object, opaque}
use codex_monitor.Requests.State.{
  RequestState, Request, Store, Capacity, Encoding, is_terminal, notifies, is_open, is_pending,
  pending_count, open_count, with_request_id, decode_object, decoded_object,
}
use codex_monitor.Requests.Updates.{
  record_of, answer, allowed, notification_capacity, decoded_summary, encoded_notice, noted,
  insert_notification, notice, new_notification, clashes, updates_of, write_update, moved, advance,
}
use codex_monitor.Requests.Lifecycle.{new_request}
use codex_monitor.Requests.Outbox.{open_notification}
use codex_monitor.Requests.Machine.{Op, Setup, step, run}
use codex_monitor.Requests.Reserved.{IsStored, IsReserved, moved-IsReserved}
use codex_monitor.Requests.Steps.{IsCreated, same_store, added_one}
use codex_monitor.Requests.Kept.{IsDrained, untouched, written, Kept, Unique_kept, step_kept}

created_within :
    (c : Capacity) (fresh : String) (now : ℕ) (db db' : Store)
    → IsCreated c fresh now db db'
    → pending_count db + open_count db ≤ c.max_notifications
    → pending_count db' + open_count db' ≤ c.max_notifications
unfolding new_request
created_within c fresh now db db' (same_store e) h = rw e h
created_within c fresh now db db' (added_one d free room e) h =
    let added = count_rows-append is_open db.requests (new_request fresh now d) in
    rw e (omega (arith, added, room))

drained_within :
    (c : Capacity) (db db' : Store)
    → IsDrained db db'
    → pending_count db + open_count db ≤ c.max_notifications
    → pending_count db' + open_count db' ≤ c.max_notifications
drained_within c db db' (untouched e) h = rw e h
drained_within c db db' (written id f same e) h =
    let fewer =
      count_rows-update_le is_pending (open_notification id) f (λ a p q. ground arith)
        db.notifications in
    rw e (omega (arith, fewer, h))

IsReserved-kept : (c : Capacity) → Kept c (IsReserved c)
IsReserved-kept c = record {
  on_moved = λ r update_id summary now db db' unique stored m h.
      moved-IsReserved c r update_id summary now db db' h stored m;
  on_created = λ fresh now db db' unique m h. record {
    unique = (Unique_kept c).on_created fresh now db db' unique m h.unique;
    within = created_within c fresh now db db' m h.within;
  };
  on_drained = λ db db' m h. record {
    unique = (Unique_kept c).on_drained db db' m h.unique;
    within = drained_within c db db' m h.within;
  };
}

-- Whatever happens, the pending notifications and the open requests together stay within
-- `max_notifications`, and request ids stay unique, if both hold before.
pub run-IsReserved :
    (u : Setup) (db : Store) (ops : List Op)
    → IsReserved u.capacity db
    → IsReserved u.capacity (run u db ops)
unfolding run
run-IsReserved u db [] h = h
run-IsReserved u db (op ∷ ops) h =
    run-IsReserved u (step u db op) ops
      (step_kept u (IsReserved u.capacity) (IsReserved-kept u.capacity) db op h.unique h)

decoded_status : (o : Option Value) (m : String) → decoded_object o ≡ err 429 m → ⊥
decoded_status none m e = ground arith
decoded_status (some (object fs)) m e = cc
decoded_status (some null) m e = ground arith
decoded_status (some (boolean b)) m e = ground arith
decoded_status (some (number n)) m e = ground arith
decoded_status (some (text s)) m e = ground arith
decoded_status (some (array vs)) m e = ground arith
decoded_status (some opaque) m e = ground arith

decode_status : (enc : Encoding) (s m : String) → decode_object enc s ≡ err 429 m → ⊥
unfolding decode_object
decode_status enc s m e = decoded_status (enc.loads s) m e

summary_status :
    (enc : Encoding) (o : Option String) (m : String) → decoded_summary enc o ≡ err 429 m → ⊥
summary_status enc none m e = cc
summary_status enc (some s) m e = elim (bind_err (decode_object enc s) _ e) [
  | inl h ↦ decode_status enc s m h
  | inr (v, h, k) ↦ cc
]

answer_status :
    (enc : Encoding) (db : Store) (r : Request) (d : Bool) (m : String)
    → answer enc db r d ≡ err 429 m
    → ⊥
unfolding record_of
answer_status enc db r d m e = elim (bind_err (record_of enc r d) _ e) [
  | inl h ↦ elim (bind_err (decode_object enc r.payload) _ h) [
    | inl i ↦ decode_status enc r.payload m i
    | inr (v, i, k) ↦ cc
  ]
  | inr (v, h, k) ↦ cc
]

noted_status :
    (enc : Encoding) (c : Capacity) (r : Request) (update_id : String) (target : RequestState)
    (summary : Option String) (now : ℕ) (db : Store) (m : String)
    → pending_count db + 1 ≤ c.max_notifications
    → noted enc c r update_id target summary now db ≡ err 429 m
    → ⊥
unfolding noted
noted_status enc c r update_id target summary now db m room e =
    elim (refuse_if_err (leb c.max_notifications (pending_count db)) 429
      "request notification capacity reached" _ e) [
        | inl (full, _) ↦ ground arith
        | inr (_, e1) ↦ elim (bind_err (decoded_summary enc summary) _ e1) [
          | inl h ↦ summary_status enc summary m h
          | inr (v, _, e2) ↦ elim (bind_err (encoded_notice (enc.dumps (notice r target v))) _ e2) [
            | inl h ↦ encoded_status (enc.dumps (notice r target v)) m h
            | inr (envelope, _, e3) ↦
                elim (refuse_if_err
                  (any_row (clashes (new_notification r update_id envelope now)) db.notifications)
                  500 "UNIQUE constraint failed: request_notifications" _ e3) [
                    | inl (_, s) ↦ ground arith
                    | inr (_, e4) ↦ cc
                  ]
          ]
        ]
      ]
  where
    encoded_status : (o : Option String) (m : String) → encoded_notice o ≡ err 429 m → ⊥
    encoded_status none m e = ground arith
    encoded_status (some s) m e = cc

-- The end of a request is never refused for want of room: after any operations, `_transition_db`'s
-- change of an open request to a terminal state does not end with 429, if the room was kept before.
pub terminal_never_full :
    (u : Setup) (db : Store) (ops : List Op) (r : Request) (update_id : String)
    (target : RequestState) (summary : Option String) (now : ℕ) (message : String)
    → IsReserved u.capacity db
    → IsStored r (run u db ops)
    → is_open r ≡ true
    → is_terminal target ≡ true
    → advance u.encoding u.capacity r update_id target summary now (run u db ops) ≢ err 429 message
unfolding advance notification_capacity insert_notification
terminal_never_full u db ops r update_id target summary now message reserved stored open_r final e =
    let db' = run u db ops in
    let c = u.capacity in
    let within = (run-IsReserved u db ops reserved).within in
    let some_open : 1 ≤ open_count db' =
      any_row-count_rows is_open db'.requests
        (any_row-find_row (with_request_id r.request_id) is_open db'.requests stored open_r) in
    let told : notifies target ≡ true = ground arith in
    elim (require_err (allowed r.state target) 409 "request state transition is not allowed" _ e) [
      | inl (_, s) ↦ ground arith
      | inr (_, e1) ↦ elim (bind_err (notification_capacity c target db') _ e1) [
        | inl h ↦ ground arith
        | inr (_, _, e2) ↦
            elim (refuse_if_err
              (not (is_terminal target)
                && leb c.max_updates_per_request
                    (count_rows (updates_of r.request_id) db'.updates + 1))
              429 "request update capacity reached; terminal expiry slot is reserved" _ e2) [
                | inl (h, _) ↦ ground arith
                | inr (_, e3) ↦
                    let put =
                      insert_notification u.encoding c (moved target now r) update_id target summary
                        now (write_update r update_id target summary now db') in
                    elim (bind_err put _ e3) [
                      | inl h ↦
                          noted_status u.encoding c (moved target now r) update_id target summary
                            now (write_update r update_id target summary now db') message
                            (omega arith) (rw told at h)
                      | inr (db'', _, e4) ↦
                          answer_status u.encoding db'' (moved target now r) false message e4
                    ]
              ]
      ]
    ]
