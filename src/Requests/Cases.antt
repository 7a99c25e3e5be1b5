-- ===== src/Requests/Cases.antt =====
-- What a successful transition wrote, read off the code once.
use codex_monitor.Common.{
  ℕ, ◌+◌, ◌<◌, ◌≡◌, refl, sym, ap, ◌∙◌, subst, inl, inr, String, true, false, not, ◌&&◌, Option,
  none, some, List, [], ◌∷◌, ◌++◌, arith, leb, eqb, Bool-cases, ok, bind_ok, refuse_if_ok,
  require_ok, count_rows, find_row, update_rows, any_row,
}
use codex_monitor.Requests.State.{
  RequestState, Request, Update, Notification, Store, Capacity, Encoding, is_terminal, notifies,
  is_pending, pending_count, state_of,
}
use codex_monitor.Requests.Updates.{
  Reply, record_of, answer, noted, decoded_summary, encoded_notice, notice, clashes, allowed,
  notification_capacity, new_notification, insert_notification, update_of, updates_of, new_update,
  moved, current, write_update, same_update, advance, advance_to, update_known, transition_db,
}

-- The outbox after a transition: as it was, or with one more pending notification.
pub data IsOutbox (n : RequestState) (before after : List Notification) : Type 0 where
  silent : notifies n ≡ false → after ≡ before → IsOutbox n before after
  notified :
      (m : Notification)
      → notifies n ≡ true
      → is_pending m ≡ true
      → any_row (clashes m) before ≡ false
      → after ≡ before ++ m ∷ []
      → IsOutbox n before after

noted_ok :
    (enc : Encoding) (c : Capacity) (r : Request) (update_id : String) (target : RequestState)
    (summary : Option String) (now : ℕ) (db db' : Store)
    → notifies target ≡ true
    → noted enc c r update_id target summary now db ≡ ok db'
    → IsOutbox target db.notifications db'.notifications
      × (db'.requests ≡ db.requests)
      × (db'.updates ≡ db.updates)
unfolding noted
noted_ok enc c r update_id target summary now db db' told e =
    let (_, e1) =
      refuse_if_ok (leb c.max_notifications (pending_count db)) 429
        "request notification capacity reached" _ e in
    let (v, _, e2) = bind_ok (decoded_summary enc summary) _ e1 in
    let (envelope, _, e3) = bind_ok (encoded_notice (enc.dumps (notice r target v))) _ e2 in
    let (apart, e4) =
      refuse_if_ok (any_row (clashes (new_notification r update_id envelope now)) db.notifications)
        500 "UNIQUE constraint failed: request_notifications" _ e3 in
    let same : (record db {
      notifications = db.notifications ++ new_notification r update_id envelope now ∷ [];
    })
        ≡ db' =
      ground arith in
    (
      notified (new_notification r update_id envelope now) told (unfold new_notification in refl)
          apart (ap (λ s. s.notifications) (sym same)),
      ap (λ s. s.requests) (sym same),
      ap (λ s. s.updates) (sym same),
    )

inserted :
    (enc : Encoding) (c : Capacity) (r : Request) (update_id : String) (target : RequestState)
    (summary : Option String) (now : ℕ) (db db' : Store)
    → insert_notification enc c r update_id target summary now db ≡ ok db'
    → IsOutbox target db.notifications db'.notifications
      × (db'.requests ≡ db.requests)
      × (db'.updates ≡ db.updates)
unfolding insert_notification
inserted enc c r update_id target summary now db db' e = elim (Bool-cases (notifies target)) [
  | inr quiet ↦
      let same : db ≡ db' = ground arith in
      (
        silent quiet (ap (λ s. s.notifications) (sym same)),
        ap (λ s. s.requests) (sym same),
        ap (λ s. s.updates) (sym same),
      )
  | inl told ↦
      let e1 : noted enc c r update_id target summary now db ≡ ok db' = rw told at e in
      noted_ok enc c r update_id target summary now db db' told e1
]

-- What a transition that was carried out has checked and written.
pub record IsAdvanced (c : Capacity) (r : Request) (update_id : String) (target : RequestState)
    (summary : Option String) (now : ℕ) (db db' : Store) : Type 0 where
  pub was_allowed : allowed r.state target ≡ true
  pub room : notification_capacity c target db ≡ ok tt
  pub slot :
      is_terminal target ≡ false
      → count_rows (updates_of r.request_id) db.updates + 1 < c.max_updates_per_request
  pub requests : db'.requests ≡ update_rows (current r) (moved target now) db.requests
  pub updates : db'.updates ≡ db.updates ++ new_update r update_id target summary now ∷ []
  pub outbox : IsOutbox target db.notifications db'.notifications

pub advance_ok :
    (enc : Encoding) (c : Capacity) (r : Request) (update_id : String) (target : RequestState)
    (summary : Option String) (now : ℕ) (db db' : Store) (reply : Reply)
    → advance enc c r update_id target summary now db ≡ ok (db', reply)
    → IsAdvanced c r update_id target summary now db db'
unfolding advance
advance_ok enc c r update_id target summary now db db' reply e =
    let (ok_state, e1) =
      require_ok (allowed r.state target) 409 "request state transition is not allowed" _ e in
    let (u, room, e2) = bind_ok (notification_capacity c target db) _ e1 in
    let (slot, e3) =
      refuse_if_ok
        (not (is_terminal target)
          && leb c.max_updates_per_request (count_rows (updates_of r.request_id) db.updates + 1))
        429 "request update capacity reached; terminal expiry slot is reserved" _ e2 in
    let (db'', put, e4) =
      bind_ok
        (insert_notification enc c (moved target now r) update_id target summary now
          (write_update r update_id target summary now db))
        _ e3 in
    let (reply', _, e5) = bind_ok (record_of enc (moved target now r) false) _ e4 in
    let same : db'' ≡ db' = ground arith in
    let (outbox, requests, updates) =
      inserted enc c (moved target now r) update_id target summary now
        (write_update r update_id target summary now db) db'' put in
    record {
      was_allowed = ok_state;
      room = room;
      slot = λ h. ground arith;
      requests = ap (λ s. s.requests) (sym same) ∙ requests;
      updates = ap (λ s. s.updates) (sym same) ∙ updates;
      outbox = subst (λ s. IsOutbox target db.notifications s.notifications) same outbox;
    }

-- A transition leaves the store alone (its update is known) or carries out one state's change.
pub data IsMoved (c : Capacity) (r : Request) (update_id : String) (summary : Option String)
    (now : ℕ) (db db' : Store) : Type 0 where
  known : db' ≡ db → IsMoved c r update_id summary now db db'
  advanced :
      (target : RequestState)
      → IsAdvanced c r update_id target summary now db db'
      → IsMoved c r update_id summary now db db'

pub transition_db_ok :
    (enc : Encoding) (c : Capacity) (r : Request) (update_id target : String) (expected : ℕ)
    (summary : Option String) (now : ℕ) (db db' : Store) (reply : Reply)
    → transition_db enc c r update_id target expected summary now db ≡ ok (db', reply)
    → IsMoved c r update_id summary now db db'
unfolding transition_db update_known advance_to
transition_db_ok enc c r update_id target expected summary now db db' reply e =
    go (find_row (update_of r.request_id update_id) db.updates) e
  where
    to_state :
        (o : Option RequestState)
        → advance_to enc c r update_id o summary now db ≡ ok (db', reply)
        → IsMoved c r update_id summary now db db'
    to_state none e1 = cc
    to_state (some s) e1 = advanced s (advance_ok enc c r update_id s summary now db db' reply e1)

    go :
        (o : Option Update)
        → update_known enc c r update_id target expected summary now db o ≡ ok (db', reply)
        → IsMoved c r update_id summary now db db'
    go (some u) e1 = elim (Bool-cases (same_update expected target summary u)) [
      | inl t ↦
          let e2 : answer enc db r true ≡ ok (db', reply) = rw t at e1 in
          let (_, _, e3) = bind_ok (record_of enc r true) _ e2 in known (ground arith)
      | inr t ↦ absurd (ground arith)
    ]
    go none e1 =
        let (_, e2) = require_ok (eqb r.revision expected) 409 "request revision conflict" _ e1 in
        to_state (state_of target) e2
