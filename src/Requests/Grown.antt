-- ===== src/Requests/Grown.antt =====
-- The methods that move and create requests, seen as what they do to the tables.
use codex_monitor.Common.{
  ℕ, ◌≡◌, refl, sym, subst, inl, inr, String, Bool, ◌&&◌, Option, none, some, List, [], ◌∷◌, map,
  arith, leb, Bool-cases, Result, ok, err, ◌>>=◌, is_some, find_row, select_rows, take, bind_ok,
  require_ok, refuse_if_ok, All, All-take, All-select_rows, All-mono, Distinct, Distinct-insert,
  Distinct-take, Distinct-select_rows,
}
use codex_monitor.Json.{Value, is_name}
use codex_monitor.Requests.State.{
  Request, Store, Capacity, pending_count, at_key, json_object, optional_json_object,
}
use codex_monitor.Requests.Updates.{Reply, transition_db}
use codex_monitor.Requests.Lifecycle.{
  draft, new_request, create_in, create, transition_row, transition, overdue, expiry_id, also,
  expire_rows, expire_due,
}
use codex_monitor.Requests.Machine.{
  Op, creates, transitions, expires, accepts, fails, defers, Setup, after_pair, step,
}
use codex_monitor.Requests.Cases.{IsMoved, transition_db_ok}
use codex_monitor.Requests.Reserved.{UniqueRequests, IsStored, find_row-IsStored}
use codex_monitor.Requests.Steps.{
  stored-All, rest-IsStored, moved-UniqueRequests, IsCreated, same_store, added_one, create_in_ok,
}

-- The operations that the clients of the store ask for; the others are the outbox's.
abbrev pub IsClient : Op → Type 0
IsClient (accepts now id delivery) = ⊥
IsClient (fails now id message retry_after) = ⊥
IsClient (defers now id reason retry_after) = ⊥
IsClient _ = Unit

-- A property that is kept where a request is moved or created.
pub record Grown {κ} (c : Capacity) (P : Store → Type κ) : Type κ where
  pub on_moved :
      (r : Request) (update_id : String) (summary : Option String) (now : ℕ) (db db' : Store)
      → UniqueRequests db
      → IsStored r db
      → IsMoved c r update_id summary now db db'
      → P db
      → P db'
  pub on_created :
      (fresh : String) (now : ℕ) (db db' : Store)
      → UniqueRequests db
      → IsCreated c fresh now db db'
      → P db
      → P db'

pub unique_created :
    (c : Capacity) (fresh : String) (now : ℕ) (db db' : Store)
    → UniqueRequests db
    → IsCreated c fresh now db db'
    → UniqueRequests db'
unfolding new_request
unique_created c fresh now db db' unique (same_store e) = subst UniqueRequests (sym e) unique
unique_created c fresh now db db' unique (added_one d free room e) =
    subst UniqueRequests (sym e)
      (Distinct-insert (λ r. r.request_id) db.requests (new_request fresh now d) unique free)

ok_store {ℓ} :
    {A : Type ℓ} (a b : Store) (x y : A)
    → ◌≡◌ {A = Result (Store × A)} (ok (a, x)) (ok (b, y))
    → a ≡ b
ok_store a b x y e = cc

pub after_pair_kept {ℓ κ} :
    {A : Type ℓ} (P : Store → Type κ) (db : Store) (o : Result (Store × A))
    → P db
    → ((db' : Store) (a : A) → o ≡ ok (db', a) → P db')
    → P (after_pair db o)
after_pair_kept P db (ok (db', a)) p f = f db' a refl
after_pair_kept P db (err c m) p f = p

module _ {κ} (u : Setup) (P : Store → Type κ) (grown : Grown u.capacity P) where
  expire_rows_kept :
      (now : ℕ) (rs : List Request) (db db' : Store) (replies : List Reply)
      → Distinct (map (λ r. r.request_id) rs)
      → All (λ r. IsStored r db) rs
      → UniqueRequests db
      → P db
      → expire_rows u.encoding u.capacity now rs db ≡ ok (db', replies)
      → P db'
  unfolding expire_rows
  expire_rows_kept now [] db db' replies apart stored unique p e =
      let same : db ≡ db' = ground arith in subst P same p
  expire_rows_kept now (r ∷ rs) db db' replies apart stored unique p e =
      elim (Bool-cases (leb u.capacity.max_notifications (pending_count db))) [
        | inl full ↦ let same : db ≡ db' = ground arith in subst P same p
        | inr room ↦
            let e1 : (transition_db u.encoding u.capacity r (expiry_id r) "expired" r.revision none
                    now db
                  >>= λ p. also p.1 (expire_rows u.encoding u.capacity now rs p.0))
                ≡ ok (db', replies) =
              rw (room, expire_rows) at e in
            let (next, moved, e2) =
              bind_ok
                (transition_db u.encoding u.capacity r (expiry_id r) "expired" r.revision none now
                  db)
                _ e1 in
            let (rest, ran, e3) = bind_ok (expire_rows u.encoding u.capacity now rs next.0) _ e2 in
            let m =
              transition_db_ok u.encoding u.capacity r (expiry_id r) "expired" r.revision none now
                db next.0 next.1 moved in
            let same : rest.0 ≡ db' = ok_store rest.0 db' (next.1 ∷ rest.1) replies e3 in
            subst P same (
              expire_rows_kept now rs next.0 rest.0 rest.1 apart.1
                (rest-IsStored u.capacity r (expiry_id r) none now db next.0 rs apart.0 stored.1 m)
                (moved-UniqueRequests u.capacity r (expiry_id r) none now db next.0 unique m)
                (grown.on_moved r (expiry_id r) none now db next.0 unique stored.0 m p) ran)
      ]

  found_kept :
      (now : ℕ) (update_id target : String) (expected : ℕ) (summary : Option String)
      (p : Request → Bool) (db db' : Store) (reply : Reply) (o : Option Request)
      → find_row p db.requests ≡ o
      → UniqueRequests db
      → P db
      → transition_row u.encoding u.capacity now o update_id target expected summary db
        ≡ ok (db', reply)
      → P db'
  unfolding transition_row
  found_kept now update_id target expected summary p db db' reply none f unique h e = cc
  found_kept now update_id target expected summary p db db' reply (some r) f unique h e =
      grown.on_moved r update_id summary now db db' unique (find_row-IsStored p db r unique f)
        (transition_db_ok u.encoding u.capacity r update_id target expected summary now db db' reply
          e)
        h

  pub create_kept :
      (fresh : String) (now : ℕ) (conversation source key delivery binding : String)
      (payload : Value) (at within : Option ℕ) (db db' : Store) (reply : Reply)
      → UniqueRequests db
      → P db
      → create u.encoding u.capacity fresh now conversation source key delivery binding payload at
          within db
        ≡ ok (db', reply)
      → P db'
  unfolding create create_in
  create_kept fresh now conversation source key delivery binding payload at within db db' reply
        unique h e =
      let (_, e1) = require_ok (is_name conversation) 400 "must be a nonempty identifier" _ e in
      let (_, e2) = require_ok (is_name source) 400 "must be a nonempty identifier" _ e1 in
      let (_, e3) = require_ok (is_name key) 400 "must be a nonempty identifier" _ e2 in
      let (_, e4) = require_ok (is_name delivery) 400 "must be a nonempty identifier" _ e3 in
      let (_, e5) = require_ok (is_name binding) 400 "must be a nonempty identifier" _ e4 in
      let (text, _, e6) =
        bind_ok (json_object u.encoding payload u.capacity.max_payload_bytes) _ e5 in
      let (_, e7) =
        refuse_if_ok (is_some at && is_some within) 400
          "expiry and expires_in are mutually exclusive" _ e6 in
      grown.on_created fresh now db db' unique
        (create_in_ok u.encoding u.capacity fresh now
          (draft now conversation source key delivery binding text at within) db db' reply
          (find_row (at_key conversation source key) db.requests) e7)
        h

  pub transition_kept :
      (now : ℕ) (conversation source key update_id target : String) (expected : ℕ)
      (summary : Option Value) (db db' : Store) (reply : Reply)
      → UniqueRequests db
      → P db
      → transition u.encoding u.capacity now conversation source key update_id target expected
          summary db
        ≡ ok (db', reply)
      → P db'
  unfolding transition
  transition_kept now conversation source key update_id target expected summary db db' reply unique
        h e =
      let (_, e1) = require_ok (is_name conversation) 400 "must be a nonempty identifier" _ e in
      let (_, e2) = require_ok (is_name source) 400 "must be a nonempty identifier" _ e1 in
      let (_, e3) = require_ok (is_name key) 400 "must be a nonempty identifier" _ e2 in
      let (_, e4) = require_ok (is_name update_id) 400 "must be a nonempty identifier" _ e3 in
      let (_, e5) = require_ok (is_name target) 400 "must be a nonempty identifier" _ e4 in
      let (text, _, e6) =
        bind_ok (optional_json_object u.encoding summary u.capacity.max_update_bytes) _ e5 in
      found_kept now update_id target expected text (at_key conversation source key) db db' reply _
        refl unique h e6

  pub expire_due_kept :
      (now limit : ℕ) (db db' : Store) (replies : List Reply)
      → UniqueRequests db
      → P db
      → expire_due u.encoding u.capacity now limit db ≡ ok (db', replies)
      → P db'
  unfolding expire_due
  expire_due_kept now limit db db' replies unique h e =
      let (_, e1) =
        require_ok (leb 1 limit && leb limit 100) 400 "expiry limit must be 1..100" _ e in
      let chosen = select_rows (overdue now) db.requests in
      expire_rows_kept now (take limit chosen) db db' replies
        (Distinct-take (λ r. r.request_id) limit chosen
          (Distinct-select_rows (λ r. r.request_id) (overdue now) db.requests unique))
        (All-take (λ r. IsStored r db) limit chosen
          (All-mono _ (λ r. IsStored r db) (λ r p. p.0) chosen
            (All-select_rows (λ r. IsStored r db) (overdue now) db.requests
              (stored-All db.requests unique))))
        unique h e1

  -- Each step but those of the outbox keeps the property, where request ids are unique.
  pub step_grown :
      (db : Store) (op : Op) → IsClient op → UniqueRequests db → P db → P (step u db op)
  unfolding step
  step_grown db (creates fresh now conversation source key delivery binding payload at within) asks
        unique h =
      after_pair_kept P db _ h λ db' reply e.
        create_kept fresh now conversation source key delivery binding payload at within db db'
          reply unique h e
  step_grown db (transitions now conversation source key update_id target expected summary) asks
        unique h =
      after_pair_kept P db _ h λ db' reply e.
        transition_kept now conversation source key update_id target expected summary db db' reply
          unique h e
  step_grown db (expires now limit) asks unique h =
      after_pair_kept P db _ h λ db' replies e. expire_due_kept now limit db db' replies unique h e
  step_grown db (accepts _ _ _) asks unique h = elim asks [ ]
  step_grown db (fails _ _ _ _) asks unique h = elim asks [ ]
  step_grown db (defers _ _ _ _) asks unique h = elim asks [ ]
