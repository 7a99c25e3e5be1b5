-- ===== src/Requests/Recreate.antt =====
-- `create` called again with the same content, at any later time.
use codex_monitor.Common.{
  ℕ, ◌+◌, ◌≡◌, refl, sym, subst, String, true, false, ◌&&◌, Option, none, some, List, [], ◌∷◌, ◌++◌,
  arith, leb, ltb, eq_refl, inl, inr, find_row, find_row-append, Bool-cases, Result, ok, bind_ok,
  require_ok, refuse_if_ok, is_some, any_row, length,
}
use codex_monitor.Json.{Value, is_name}
use codex_monitor.Requests.State.{
  Request, Store, Capacity, Encoding, with_request_id, at_key, pending_count, open_count,
  json_object, decode_object,
}
use codex_monitor.Requests.Updates.{Reply, answer}
use codex_monitor.Requests.Lifecycle.{
  Draft, draft, same_request, new_request, known_or_created, create_in, create,
}
use codex_monitor.Requests.Machine.{Op, creates, Setup, after_pair, step, run}
use codex_monitor.Requests.Reserved.{UniqueRequests}
use codex_monitor.Requests.Kept.{Unique_kept, step_kept, run_kept}
use codex_monitor.Requests.Rows.{Row-Kept}
use codex_monitor.Requests.Repeat.{answer_ok, answer_again, same_time_refl}

module _ (fresh : String) (now later : ℕ)
    (conversation source key delivery binding payload : String) (at : Option ℕ) where
  -- A request that has the content at one time has it at any other.
  same_later :
      (within : Option ℕ) (r : Request)
      → same_request (draft now conversation source key delivery binding payload at within) r ≡ true
      → same_request (draft later conversation source key delivery binding payload at within) r
        ≡ true
  same_later none r e = e
  same_later (some w) r e = e

  same_new :
      (within : Option ℕ)
      → same_request (draft later conversation source key delivery binding payload at within) (
          new_request fresh now
            (draft now conversation source key delivery binding payload at within))
        ≡ true
  unfolding new_request
  same_new none =
      ground (arith, eq_refl delivery, eq_refl binding, eq_refl payload, same_time_refl at)
  same_new (some w) =
      ground (arith, eq_refl delivery, eq_refl binding, eq_refl payload, same_time_refl (some w))

  at_key_new :
      (within : Option ℕ)
      → at_key conversation source key (
          new_request fresh now
            (draft now conversation source key delivery binding payload at within))
        ≡ true
  unfolding new_request
  at_key_new within = ground (arith, eq_refl conversation, eq_refl source, eq_refl key)

-- What the first call leaves: its request, the row of its key, and its content.
record IsMade (enc : Encoding) (conversation source key : String) (d : Draft) (db : Store)
    (reply : Reply) : Type 0 where
  found : find_row (at_key conversation source key) db.requests ≡ some reply.request
  content : same_request d reply.request ≡ true
  read : decode_object enc reply.request.payload ≡ ok reply.payload

-- The row as it stands later: the same request, with the same content.
abbrev IsRequest : Draft → Reply → Request → Type 0
IsRequest d reply r =
    (same_request d r ≡ true)
    × (r.request_id ≡ reply.request.request_id)
    × (r.payload ≡ reply.request.payload)

module _ (enc : Encoding) (c : Capacity) (fresh : String) (now later : ℕ)
    (conversation source key delivery binding payload : String) (at within : Option ℕ) where
  abbrev first_draft : Draft
  first_draft = draft now conversation source key delivery binding payload at within

  abbrev later_draft : Draft
  later_draft = draft later conversation source key delivery binding payload at within

  made :
      (db db' : Store) (reply : Reply) (o : Option Request)
      → find_row (at_key conversation source key) db.requests ≡ o
      → known_or_created enc c fresh now first_draft db o ≡ ok (db', reply)
      → IsMade enc conversation source key later_draft db' reply
  unfolding known_or_created
  made db db' reply (some r) f e = elim (Bool-cases (same_request first_draft r)) [
    | inl t ↦
        let e1 : answer enc db r true ≡ ok (db', reply) = rw t at e in
        let (v, read, kept, given) = answer_ok enc db db' r true reply e1 in
        rw given (record {
          found = rw (sym kept) f;
          content =
              same_later fresh now later conversation source key delivery binding payload at within
                r t;
          read = read;
        })
    | inr t ↦ absurd (ground arith)
  ]
  made db db' reply none f e =
      let new = new_request fresh now first_draft in
      let (_, e1) =
        refuse_if_ok (leb c.max_requests (length db.requests)) 429 "request capacity reached" _ e in
      let (_, e2) =
        refuse_if_ok (ltb c.max_notifications (pending_count db + open_count db + 1)) 429
          "request notification capacity reserved for open requests" _ e1 in
      let (_, e3) =
        refuse_if_ok (any_row (with_request_id fresh) db.requests) 500
          "UNIQUE constraint failed: requests.request_id" _ e2 in
      let (v, read, kept, given) =
        answer_ok enc (record db { requests = db.requests ++ new ∷ [] }) db' new false reply e3 in
      rw given (record {
        found =
            subst (λ s. find_row (at_key conversation source key) s.requests ≡ some new) kept
              (find_row-append (at_key conversation source key) db.requests new f (
                at_key_new fresh now later conversation source key delivery binding payload at
                  within));
        content =
            same_new fresh now later conversation source key delivery binding payload at within;
        read = read;
      })

  -- A later call finds the row.
  found_again :
      (later_fresh : String) (db : Store) (reply : Reply) (r : Request)
      → find_row (at_key conversation source key) db.requests ≡ some r
      → IsRequest later_draft reply r
      → decode_object enc reply.request.payload ≡ ok reply.payload
      → create_in enc c later_fresh later later_draft db
        ≡ ok (db, record { request = r; payload = reply.payload; duplicate = true })
  unfolding create_in known_or_created
  found_again later_fresh db reply r f same read =
      rw f (rw (same.0) (answer_again enc db r reply.payload (rw (same.2) read)))

-- `create` leaves the ids unique.
created_unique :
    (u : Setup) (fresh : String) (now : ℕ) (conversation source key delivery binding : String)
    (payload : Value) (at within : Option ℕ) (db db' : Store) (reply : Reply)
    → UniqueRequests db
    → create u.encoding u.capacity fresh now conversation source key delivery binding payload at
        within db
      ≡ ok (db', reply)
    → UniqueRequests db'
unfolding step
created_unique u fresh now conversation source key delivery binding payload at within db db' reply
      unique e =
    let stepped : UniqueRequests (
        after_pair db (
          create u.encoding u.capacity fresh now conversation source key delivery binding payload at
            within db)) =
      step_kept u UniqueRequests (Unique_kept u.capacity) db
        (creates fresh now conversation source key delivery binding payload at within) unique
        unique in
    rw e at stepped

-- A call that succeeded passed the checks, and a later call with its arguments passes them too.
checked :
    (enc : Encoding) (c : Capacity) (fresh later_fresh : String) (now later : ℕ)
    (conversation source key delivery binding : String) (payload : Value) (at within : Option ℕ)
    (db later_db : Store) (a : Store × Reply)
    → create enc c fresh now conversation source key delivery binding payload at within db ≡ ok a
    → (text : String) × (create_in enc c fresh now
          (draft now conversation source key delivery binding text at within)
          db
        ≡ ok a)
      × ((b : Result (Store × Reply))
          → create_in enc c later_fresh later
              (draft later conversation source key delivery binding text at within)
              later_db
            ≡ b
          → create enc c later_fresh later conversation source key delivery binding payload at
              within later_db
            ≡ b)
unfolding create
checked enc c fresh later_fresh now later conversation source key delivery binding payload at within
      db later_db a e =
    let (v1, e1) = require_ok (is_name conversation) 400 "must be a nonempty identifier" _ e in
    let (v2, e2) = require_ok (is_name source) 400 "must be a nonempty identifier" _ e1 in
    let (v3, e3) = require_ok (is_name key) 400 "must be a nonempty identifier" _ e2 in
    let (v4, e4) = require_ok (is_name delivery) 400 "must be a nonempty identifier" _ e3 in
    let (v5, e5) = require_ok (is_name binding) 400 "must be a nonempty identifier" _ e4 in
    let (text, v6, e6) = bind_ok (json_object enc payload c.max_payload_bytes) _ e5 in
    let (v7, e7) =
      refuse_if_ok (is_some at && is_some within) 400 "expiry and expires_in are mutually exclusive"
        _ e6 in
    (text, e7, λ b again. rw v1 (rw v2 (rw v3 (rw v4 (rw v5 (rw v6 (rw v7 again)))))))

-- `create` called again with the same arguments, at any later time and whatever operations came
-- between (the request may have been finished by then), gives the request of the first call as it
-- stands then, marked as a duplicate, and changes nothing: a relative expiry counts from the first
-- call. Right after the first call the row of the key is the one that this call gave. Request ids
-- are unique in the table.
pub create-create_same :
    (u : Setup) (fresh later_fresh : String) (now later : ℕ)
    (conversation source key delivery binding : String) (payload : Value) (at within : Option ℕ)
    (db db' : Store) (reply : Reply) (ops : List Op)
    → UniqueRequests db
    → create u.encoding u.capacity fresh now conversation source key delivery binding payload at
        within db
      ≡ ok (db', reply)
    → (find_row (at_key conversation source key) db'.requests ≡ some reply.request)
      × ((r : Request) × (find_row (at_key conversation source key) (run u db' ops).requests
            ≡ some r)
          × (r.request_id ≡ reply.request.request_id)
          × (create u.encoding u.capacity later_fresh later conversation source key delivery binding
                payload at within
                (run u db' ops)
              ≡ ok (
                run u db' ops,
                record { request = r; payload = reply.payload; duplicate = true },
              )))
create-create_same u fresh later_fresh now later conversation source key delivery binding payload at
      within db db' reply ops unique e =
    let (text, first, passes) =
      checked u.encoding u.capacity fresh later_fresh now later conversation source key delivery
        binding payload at within db (run u db' ops) (db', reply) e in
    let m =
      made u.encoding u.capacity fresh now later conversation source key delivery binding text at
        within db db' reply _ refl (unfold create_in in first) in
    let d = draft later conversation source key delivery binding text at within in
    let kept =
      run_kept u _
        (Row-Kept u.capacity (at_key conversation source key) (IsRequest d reply) (λ s n r. refl)
          λ s n r h. h)
        db' ops
        (created_unique u fresh now conversation source key delivery binding payload at within db
          db' reply unique e)
        (record { row = reply.request; found = m.found; such = (m.content, refl, refl) }) in
    let again =
      found_again u.encoding u.capacity fresh now later conversation source key delivery binding
        text at within later_fresh (run u db' ops) reply kept.row kept.found kept.such m.read in
    (m.found, (kept.row, kept.found, kept.such.1, passes _ again))
