-- ===== src/Requests/Resent.antt =====
-- `transition` called again with the same content, at any later time.
use codex_monitor.Common.{
  ℕ, ◌≡◌, refl, sym, subst, String, Bool, true, Option, none, some, List, arith, eqb, eq_refl, inl,
  inr, find_row, find_row-append, Finds, Bool-cases, Result, ok, bind_ok, require_ok,
}
use codex_monitor.Json.{Value, is_name}
use codex_monitor.Requests.State.{
  RequestState, Request, Update, Store, Capacity, Encoding, state_of, at_key, optional_json_object,
  decode_object,
}
use codex_monitor.Requests.Updates.{
  Reply, answer, update_of, new_update, moved, current, same_update, advance_to, update_known,
  transition_db,
}
use codex_monitor.Requests.Lifecycle.{transition_row, transition}
use codex_monitor.Requests.Cases.{advance_ok}
use codex_monitor.Requests.Machine.{Op, transitions, Setup, after_pair, step, run}
use codex_monitor.Requests.Reserved.{UniqueRequests}
use codex_monitor.Requests.Kept.{Unique_kept, step_kept, run_kept}
use codex_monitor.Requests.Rows.{Row-Kept, Noted-Kept}
use codex_monitor.Requests.Repeat.{
  state_of-state_name, same_text_refl, answer_ok, answer_again, find_row-updated, advance_answer,
}

-- What the first call leaves: its request, the row of its key, and its update.
record IsCarried (enc : Encoding) (p : Request → Bool) (update_id target : String) (expected : ℕ)
    (summary : Option String) (db : Store) (reply : Reply) : Type 0 where
  found : find_row p db.requests ≡ some reply.request
  read : decode_object enc reply.request.payload ≡ ok reply.payload
  noted :
      Finds
        (update_of reply.request.request_id update_id)
        (λ w. same_update expected target summary w ≡ true)
        db.updates

module _ (enc : Encoding) (c : Capacity) (now : ℕ) (update_id target : String) (expected : ℕ)
    (summary : Option String) (p : Request → Bool) where
  IsCarried-known :
      (db db' : Store) (reply : Reply) (r : Request) (w : Update)
      → find_row p db.requests ≡ some r
      → find_row (update_of r.request_id update_id) db.updates ≡ some w
      → update_known enc c r update_id target expected summary now db (some w) ≡ ok (db', reply)
      → IsCarried enc p update_id target expected summary db' reply
  unfolding update_known
  IsCarried-known db db' reply r w f g e =
      elim (Bool-cases (same_update expected target summary w)) [
        | inl t ↦
            let e1 : answer enc db r true ≡ ok (db', reply) = rw t at e in
            let (v, read, kept, given) = answer_ok enc db db' r true reply e1 in
            rw given (record {
              found = rw (sym kept) f;
              read = read;
              noted = rw (sym kept) (record { row = w; found = g; such = t });
            })
        | inr t ↦ absurd (ground arith)
      ]

  IsCarried-moved :
      (db db' : Store) (reply : Reply) (r : Request) (o : Option RequestState)
      → ((s : RequestState) (a : Request) → p (moved s now a) ≡ p a)
      → find_row p db.requests ≡ some r
      → find_row (update_of r.request_id update_id) db.updates ≡ none
      → eqb r.revision expected ≡ true
      → state_of target ≡ o
      → advance_to enc c r update_id o summary now db ≡ ok (db', reply)
      → IsCarried enc p update_id target expected summary db' reply
  unfolding advance_to
  IsCarried-moved db db' reply r none same f g revision named e = cc
  IsCarried-moved db db' reply r (some s) same f g revision named e =
      let a = advance_ok enc c r update_id s summary now db db' reply e in
      let (v, read, given) = advance_answer enc c r update_id s summary now db db' reply e in
      let written = new_update r update_id s summary now in
      rw given (record {
        found = rw (a.requests) (
            find_row-updated p (current r) (moved s now) db.requests (same s)
              (ground (arith, eq_refl r.request_id)) f);
        read = read;
        noted = rw (a.updates) (record {
          row = written;
          found =
              find_row-append (update_of r.request_id update_id) db.updates written g
                (ground (arith, eq_refl r.request_id, eq_refl update_id));
          such =
              ground (arith, state_of-state_name target s named, same_text_refl summary, revision);
        });
      })

  carried :
      (db db' : Store) (reply : Reply) (o : Option Request)
      → ((s : RequestState) (a : Request) → p (moved s now a) ≡ p a)
      → find_row p db.requests ≡ o
      → transition_row enc c now o update_id target expected summary db ≡ ok (db', reply)
      → IsCarried enc p update_id target expected summary db' reply
  unfolding transition_row transition_db update_known
  carried db db' reply none same f e = cc
  carried db db' reply (some r) same f e =
      go (find_row (update_of r.request_id update_id) db.updates) refl e
    where
      go :
          (k : Option Update)
          → find_row (update_of r.request_id update_id) db.updates ≡ k
          → update_known enc c r update_id target expected summary now db k ≡ ok (db', reply)
          → IsCarried enc p update_id target expected summary db' reply
      go (some w) g e1 = IsCarried-known db db' reply r w f g e1
      go none g e1 =
          let (revision, e2) =
            require_ok (eqb r.revision expected) 409 "request revision conflict" _ e1 in
          IsCarried-moved db db' reply r (state_of target) same f g revision refl e2

  -- A later call finds the request and its update.
  found_again :
      (db : Store) (reply : Reply) (r : Request)
      → find_row p db.requests ≡ some r
      → r.request_id ≡ reply.request.request_id
      → r.payload ≡ reply.request.payload
      → Finds
          (update_of reply.request.request_id update_id)
          (λ w. same_update expected target summary w ≡ true)
          db.updates
      → decode_object enc reply.request.payload ≡ ok reply.payload
      → transition_row enc c now (find_row p db.requests) update_id target expected summary db
        ≡ ok (db, record { request = r; payload = reply.payload; duplicate = true })
  unfolding transition_row transition_db update_known
  found_again db reply r f same_id same_payload noted read =
      let there : find_row (update_of r.request_id update_id) db.updates ≡ some noted.row =
        subst (λ i. find_row (update_of i update_id) db.updates ≡ some noted.row) (sym same_id)
          noted.found in
      rw f (rw there (rw (noted.such) (answer_again enc db r reply.payload (rw same_payload read))))

-- `transition` leaves the ids unique.
transitioned_unique :
    (u : Setup) (now : ℕ) (conversation source key update_id target : String) (expected : ℕ)
    (summary : Option Value) (db db' : Store) (reply : Reply)
    → UniqueRequests db
    → transition u.encoding u.capacity now conversation source key update_id target expected summary
        db
      ≡ ok (db', reply)
    → UniqueRequests db'
unfolding step
transitioned_unique u now conversation source key update_id target expected summary db db' reply
      unique e =
    let stepped : UniqueRequests (
        after_pair db (
          transition u.encoding u.capacity now conversation source key update_id target expected
            summary db)) =
      step_kept u UniqueRequests (Unique_kept u.capacity) db
        (transitions now conversation source key update_id target expected summary) unique unique in
    rw e at stepped

-- A call that succeeded passed the checks, and a later call with its arguments passes them too.
checked :
    (enc : Encoding) (c : Capacity) (now later : ℕ)
    (conversation source key update_id target : String) (expected : ℕ) (summary : Option Value)
    (db later_db : Store) (a : Store × Reply)
    → transition enc c now conversation source key update_id target expected summary db ≡ ok a
    → (text : Option String) × (transition_row enc c now
          (find_row (at_key conversation source key) db.requests)
          update_id
          target
          expected
          text
          db
        ≡ ok a)
      × ((b : Result (Store × Reply))
          → transition_row enc c later
              (find_row (at_key conversation source key) later_db.requests)
              update_id
              target
              expected
              text
              later_db
            ≡ b
          → transition enc c later conversation source key update_id target expected summary
              later_db
            ≡ b)
unfolding transition
checked enc c now later conversation source key update_id target expected summary db later_db a e =
    let (v1, e1) = require_ok (is_name conversation) 400 "must be a nonempty identifier" _ e in
    let (v2, e2) = require_ok (is_name source) 400 "must be a nonempty identifier" _ e1 in
    let (v3, e3) = require_ok (is_name key) 400 "must be a nonempty identifier" _ e2 in
    let (v4, e4) = require_ok (is_name update_id) 400 "must be a nonempty identifier" _ e3 in
    let (v5, e5) = require_ok (is_name target) 400 "must be a nonempty identifier" _ e4 in
    let (text, v6, e6) = bind_ok (optional_json_object enc summary c.max_update_bytes) _ e5 in
    (text, e6, λ b again. rw v1 (rw v2 (rw v3 (rw v4 (rw v5 (rw v6 again))))))

-- A transition that was carried out, or was known already, is known when it is sent again at any
-- later time, whatever operations came between: it changes nothing, and is answered, as a
-- duplicate, by the request as it stands then (later transitions may have moved it on). Right after
-- the first call that is the request of its answer. Request ids are unique in the table.
pub transition-transition_same :
    (u : Setup) (now later : ℕ) (conversation source key update_id target : String) (expected : ℕ)
    (summary : Option Value) (db db' : Store) (reply : Reply) (ops : List Op)
    → UniqueRequests db
    → transition u.encoding u.capacity now conversation source key update_id target expected summary
        db
      ≡ ok (db', reply)
    → (find_row (at_key conversation source key) db'.requests ≡ some reply.request)
      × ((r : Request) × (find_row (at_key conversation source key) (run u db' ops).requests
            ≡ some r)
          × (r.request_id ≡ reply.request.request_id)
          × (transition u.encoding u.capacity later conversation source key update_id target
                expected summary
                (run u db' ops)
              ≡ ok (
                run u db' ops,
                record { request = r; payload = reply.payload; duplicate = true },
              )))
transition-transition_same u now later conversation source key update_id target expected summary db
      db' reply ops unique e =
    let (text, passed, passes) =
      checked u.encoding u.capacity now later conversation source key update_id target expected
        summary db (run u db' ops) (db', reply) e in
    let p = at_key conversation source key in
    let first =
      carried u.encoding u.capacity now update_id target expected text p db db' reply _
        (λ s a. refl) refl passed in
    let unique' =
      transitioned_unique u now conversation source key update_id target expected summary db db'
        reply unique e in
    let row =
      run_kept u _
        (Row-Kept u.capacity p
          (λ r. (r.request_id ≡ reply.request.request_id) × (r.payload ≡ reply.request.payload))
          (λ s n r. refl) λ s n r h. h)
        db' ops unique'
        (record { row = reply.request; found = first.found; such = (refl, refl) }) in
    let noted =
      run_kept u _ (Noted-Kept u.capacity _ λ w. same_update expected target text w ≡ true) db' ops
        unique' first.noted in
    let again =
      found_again u.encoding u.capacity later update_id target expected text p (run u db' ops) reply
        row.row row.found row.such.0 row.such.1 noted first.read in
    (first.found, (row.row, row.found, row.such.0, passes _ again))
