-- ===== src/Requests/Steps.antt =====
-- A property that every transition keeps is kept by every operation of the store.
use codex_monitor.Common.{
  ℕ, ◌+◌, ◌≤◌, ◌≡◌, refl, sym, ◌∙◌, subst, inl, inr, String, true, false, Option, none, some, List,
  [], ◌∷◌, ◌++◌, map, arith, ltb, leb, Bool-cases, ok, ◌==◌, eq_iff, eq_refl, find_row, any_row,
  length, bind_ok, refuse_if_ok, All, Distinct, map-update_rows, find_row-update_other,
}
use codex_monitor.Requests.State.{
  Request, Store, Capacity, Encoding, pending_count, open_count, with_request_id,
}
use codex_monitor.Requests.Updates.{Reply, record_of, answer, moved, current}
use codex_monitor.Requests.Lifecycle.{Draft, same_request, new_request, known_or_created}
use codex_monitor.Requests.Cases.{IsMoved, known, advanced}
use codex_monitor.Requests.Reserved.{UniqueRequests, IsStored}

stored_behind :
    (x : Request) (zs ys : List Request)
    → All (λ j. (x.request_id == j) ≡ false) (map (λ r. r.request_id) ys)
    → All (λ r. find_row (with_request_id r.request_id) zs ≡ some r) ys
    → All (λ r. find_row (with_request_id r.request_id) (x ∷ zs) ≡ some r) ys
unfolding find_row
stored_behind x zs [] apart h = tt
stored_behind x zs (y ∷ ys) apart h =
    (ground (arith, apart.0, h.0), stored_behind x zs ys apart.1 h.1)

pub stored-All :
    (rs : List Request)
    → Distinct (map (λ r. r.request_id) rs)
    → All (λ r. find_row (with_request_id r.request_id) rs ≡ some r) rs
unfolding find_row
stored-All [] d = tt
stored-All (x ∷ rs) d =
    (ground (arith, eq_refl x.request_id), stored_behind x rs rs d.0 (stored-All rs d.1))

pub moved-UniqueRequests :
    (c : Capacity) (r : Request) (update_id : String) (summary : Option String) (now : ℕ)
    (db db' : Store)
    → UniqueRequests db
    → IsMoved c r update_id summary now db db'
    → UniqueRequests db'
moved-UniqueRequests c r update_id summary now db db' unique (known e) =
    subst UniqueRequests (sym e) unique
moved-UniqueRequests c r update_id summary now db db' unique (advanced target a) =
    subst (λ rs. Distinct (map (λ q. q.request_id) rs)) (sym a.requests)
      (subst Distinct
        (sym (
          map-update_rows (λ q. q.request_id) (current r) (moved target now) (λ q. refl)
            db.requests))
        unique)

-- A transition of one request leaves the row of another as it was.
pub moved-IsStored :
    (c : Capacity) (r s : Request) (update_id : String) (summary : Option String) (now : ℕ)
    (db db' : Store)
    → (r.request_id == s.request_id) ≡ false
    → IsStored s db
    → IsMoved c r update_id summary now db db'
    → IsStored s db'
moved-IsStored c r s update_id summary now db db' apart stored (known e) =
    subst (IsStored s) (sym e) stored
moved-IsStored c r s update_id summary now db db' apart stored (advanced target a) =
    subst (λ rs. find_row (with_request_id s.request_id) rs ≡ some s) (sym a.requests)
      (find_row-update_other (with_request_id s.request_id) (current r) (moved target now)
          (λ q. refl)
          (λ q h. ground (
            arith,
            eq_iff q.request_id s.request_id,
            eq_iff q.request_id r.request_id,
            eq_iff r.request_id s.request_id,
            apart,
          ))
          db.requests
        ∙ stored)

pub rest-IsStored :
    (c : Capacity) (r : Request) (update_id : String) (summary : Option String) (now : ℕ)
    (db db' : Store) (rs : List Request)
    → All (λ j. (r.request_id == j) ≡ false) (map (λ q. q.request_id) rs)
    → All (λ s. IsStored s db) rs
    → IsMoved c r update_id summary now db db'
    → All (λ s. IsStored s db') rs
rest-IsStored c r update_id summary now db db' [] apart h m = tt
rest-IsStored c r update_id summary now db db' (s ∷ rs) apart h m = (
  moved-IsStored c r s update_id summary now db db' apart.0 h.0 m,
  rest-IsStored c r update_id summary now db db' rs apart.1 h.1 m,
)

-- What `create` leaves: the store as it was, or with a new request within the limits.
pub data IsCreated (c : Capacity) (fresh : String) (now : ℕ) (db db' : Store) : Type 0 where
  same_store : db' ≡ db → IsCreated c fresh now db db'
  added_one :
      (d : Draft)
      → any_row (with_request_id fresh) db.requests ≡ false
      → pending_count db + open_count db + 1 ≤ c.max_notifications
      → db' ≡ record db { requests = db.requests ++ new_request fresh now d ∷ [] }
      → IsCreated c fresh now db db'

pub create_in_ok :
    (enc : Encoding) (c : Capacity) (fresh : String) (now : ℕ) (d : Draft) (db db' : Store)
    (reply : Reply) (o : Option Request)
    → known_or_created enc c fresh now d db o ≡ ok (db', reply)
    → IsCreated c fresh now db db'
unfolding known_or_created
create_in_ok enc c fresh now d db db' reply (some r) e = elim (Bool-cases (same_request d r)) [
  | inl t ↦
      let e1 : answer enc db r true ≡ ok (db', reply) = rw t at e in
      let (_, _, e2) = bind_ok (record_of enc r true) _ e1 in same_store (ground arith)
  | inr t ↦ absurd (ground arith)
]
create_in_ok enc c fresh now d db db' reply none e =
    let (_, e1) =
      refuse_if_ok (leb c.max_requests (length db.requests)) 429 "request capacity reached" _ e in
    let (room, e2) =
      refuse_if_ok (ltb c.max_notifications (pending_count db + open_count db + 1)) 429
        "request notification capacity reserved for open requests" _ e1 in
    let (free, e3) =
      refuse_if_ok (any_row (with_request_id fresh) db.requests) 500
        "UNIQUE constraint failed: requests.request_id" _ e2 in
    let (_, _, e4) = bind_ok (record_of enc (new_request fresh now d) false) _ e3 in
    added_one d free (ground arith) (ground arith)
