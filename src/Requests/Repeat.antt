-- ===== src/Requests/Repeat.antt =====
-- What the answers of `create` and `transition` are, and where a repetition finds them.
use codex_monitor.Common.{
  ℕ, ◌+◌, ◌≡◌, refl, sym, ◌∙◌, subst, String, Bool, true, false, not, ◌&&◌, Option, none, some,
  List, [], ◌∷◌, arith, leb, ◌==◌, eq_iff, eq_refl, inl, inr, find_row, update_rows, Bool-cases, ok,
  bind_ok, require_ok, refuse_if_ok, count_rows,
}
use codex_monitor.Json.{Value}
use codex_monitor.Requests.State.{
  RequestState, Request, Store, Capacity, Encoding, state_name, state_of, is_terminal,
  decode_object,
}
use codex_monitor.Requests.Updates.{
  Reply, record_of, answer, allowed, notification_capacity, insert_notification, same_text,
  same_time, updates_of, moved, write_update, advance,
}

pub state_of-state_name :
    (s : String) (t : RequestState) → state_of s ≡ some t → (state_name t == s) ≡ true
unfolding state_of
state_of-state_name s t h = ground (
  arith,
  eq_refl s,
  eq_iff s "received",
  eq_iff s "acknowledged",
  eq_iff s "in_progress",
  eq_iff s "completed",
  eq_iff s "failed",
  eq_iff s "cancelled",
  eq_iff s "expired",
)

pub same_text_refl : (o : Option String) → same_text o o ≡ true
same_text_refl none = refl
same_text_refl (some s) = eq_refl s

pub same_time_refl : (o : Option ℕ) → same_time o o ≡ true
same_time_refl none = refl
same_time_refl (some n) = ground arith

-- An answer that was given: the stored payload was read back.
pub answer_ok :
    (enc : Encoding) (db db' : Store) (r : Request) (b : Bool) (reply : Reply)
    → answer enc db r b ≡ ok (db', reply)
    → (v : Value) × (decode_object enc r.payload ≡ ok v)
      × (db ≡ db')
      × (reply ≡ record { request = r; payload = v; duplicate = b })
unfolding record_of
answer_ok enc db db' r b reply e =
    let (given, e1, e2) = bind_ok (record_of enc r b) _ e in
    let (v, e3, e4) = bind_ok (decode_object enc r.payload) _ e1 in
    let first : db ≡ db' = ground arith in
    let second : given ≡ reply = ground arith in
    let third : record { request = r; payload = v; duplicate = b } ≡ given = ground arith in
    (v, e3, first, sym second ∙ sym third)

pub answer_again :
    (enc : Encoding) (db : Store) (r : Request) (v : Value)
    → decode_object enc r.payload ≡ ok v
    → answer enc db r true ≡ ok (db, record { request = r; payload = v; duplicate = true })
unfolding record_of
answer_again enc db r v e = rw e refl

-- The first row that a query finds is still the first after an update that keeps the query's answer.
pub find_row-updated :
    (p q : Request → Bool) (f : Request → Request) (rs : List Request) {r : Request}
    → ((a : Request) → p (f a) ≡ p a)
    → q r ≡ true
    → find_row p rs ≡ some r
    → find_row p (update_rows q f rs) ≡ some (f r)
unfolding find_row update_rows
find_row-updated p q f [] same hit h = cc
find_row-updated p q f (x ∷ rs) {r} same hit h = elim (Bool-cases (p x)) [
  | inl t ↦
      let e : x ≡ r = ground arith in
      let at_x : q x ≡ true = subst (λ a. q a ≡ true) (sym e) hit in ground (arith, same x, e)
  | inr t ↦
      let rest = find_row-updated p q f rs {r = r} same hit (ground arith) in ground (arith, same x)
]

pub advance_answer :
    (enc : Encoding) (c : Capacity) (r : Request) (update_id : String) (target : RequestState)
    (summary : Option String) (now : ℕ) (db db' : Store) (reply : Reply)
    → advance enc c r update_id target summary now db ≡ ok (db', reply)
    → (v : Value) × (decode_object enc r.payload ≡ ok v)
      × (reply ≡ record { request = moved target now r; payload = v; duplicate = false })
unfolding advance
advance_answer enc c r update_id target summary now db db' reply e =
    let (_, e1) =
      require_ok (allowed r.state target) 409 "request state transition is not allowed" _ e in
    let (_, _, e2) = bind_ok (notification_capacity c target db) _ e1 in
    let (_, e3) =
      refuse_if_ok
        (not (is_terminal target)
          && leb c.max_updates_per_request (count_rows (updates_of r.request_id) db.updates + 1))
        429 "request update capacity reached; terminal expiry slot is reserved" _ e2 in
    let (db'', _, e4) =
      bind_ok
        (insert_notification enc c (moved target now r) update_id target summary now
          (write_update r update_id target summary now db))
        _ e3 in
    let (v, read, _, given) = answer_ok enc db'' db' (moved target now r) false reply e4 in
    (v, read, given)
