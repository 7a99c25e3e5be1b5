-- ===== src/Requests/Reserved.antt =====
-- The outbox keeps a place for every open request.
use codex_monitor.Common.{
  ℕ, ◌+◌, ◌≤◌, ◌≡◌, refl, sym, ap, subst, inl, inr, String, Bool, true, false, Option, some, List,
  [], ◌∷◌, map, arith, Bool-cases, ok, if◌then◌else◌, ◌==◌, eq_refl, count_rows, find_row,
  update_rows, any_row, SameRow, Distinct, Distinct-SameRow, map-update_rows, All-find_row,
  any_row-find_row, find_row_unique, count_rows-append, &&_split,
}
use codex_monitor.Requests.State.{
  RequestState, Request, Notification, Store, Capacity, is_terminal, notifies, is_open, is_pending,
  pending_count, open_count, with_request_id,
}
use codex_monitor.Requests.Updates.{allowed, notification_capacity, moved, current}
use codex_monitor.Requests.Cases.{IsOutbox, silent, notified, IsAdvanced, IsMoved, known, advanced}

abbrev pub UniqueRequests : Store → Type 0
UniqueRequests db = Distinct (map (λ r. r.request_id) db.requests)

-- The row `r` is the table's row of its id.
abbrev pub IsStored : Request → Store → Type 0
IsStored r db = find_row (with_request_id r.request_id) db.requests ≡ some r

-- The pending notifications and the open requests together fit the outbox.
pub record IsReserved (c : Capacity) (db : Store) : Type 0 where
  pub unique : UniqueRequests db
  pub within : pending_count db + open_count db ≤ c.max_notifications

pub same_row :
    (r : Request) (db : Store)
    → UniqueRequests db
    → IsStored r db
    → SameRow (λ q. q.request_id) r db.requests
same_row r db unique stored =
    All-find_row (λ a. SameRow (λ q. q.request_id) a db.requests) (with_request_id r.request_id)
      db.requests (Distinct-SameRow (λ q. q.request_id) db.requests unique) stored

current_self : (r : Request) → current r r ≡ true
current_self r = ground (arith, eq_refl r.request_id)

-- A row that some query finds is its id's row.
pub find_row-IsStored :
    (p : Request → Bool) (db : Store) (r : Request)
    → UniqueRequests db
    → find_row p db.requests ≡ some r
    → IsStored r db
find_row-IsStored p db r unique found =
    find_row_unique (with_request_id r.request_id) db.requests r
      (All-find_row (λ a. SameRow (λ q. q.request_id) a db.requests) p db.requests
        (Distinct-SameRow (λ q. q.request_id) db.requests unique) found)
      (any_row-find_row p (with_request_id r.request_id) db.requests found (eq_refl r.request_id))

row_open :
    (r x : Request)
    → ((x.request_id == r.request_id) ≡ true → x ≡ r)
    → is_open r ≡ true
    → current r x ≡ true
    → is_open x ≡ true
row_open r x same open_r hit =
    subst (λ a. is_open a ≡ true) (sym (same (&&_split (x.request_id == r.request_id) _ hit).0))
      open_r

open_count_le :
    (r : Request) (target : RequestState) (now : ℕ) (rs : List Request)
    → SameRow (λ q. q.request_id) r rs
    → is_open r ≡ true
    → count_rows is_open (update_rows (current r) (moved target now) rs) ≤ count_rows is_open rs
unfolding count_rows update_rows
open_count_le r target now [] same open_r = omega arith
open_count_le r target now (x ∷ rs) same open_r =
    ground (arith, row_open r x same.0 open_r, open_count_le r target now rs same.1 open_r)

open_count_lt :
    (r : Request) (target : RequestState) (now : ℕ) (rs : List Request)
    → SameRow (λ q. q.request_id) r rs
    → is_open r ≡ true
    → is_terminal target ≡ true
    → any_row (current r) rs ≡ true
    → count_rows is_open (update_rows (current r) (moved target now) rs) + 1 ≤ count_rows is_open rs
unfolding count_rows update_rows any_row
open_count_lt r target now [] same open_r final hit = cc
open_count_lt r target now (x ∷ rs) same open_r final hit = elim (Bool-cases (current r x)) [
  | inl t ↦
      let was : is_open x ≡ true = row_open r x same.0 open_r t in
      let rest = open_count_le r target now rs same.1 open_r in ground arith
  | inr f ↦
      let rest = open_count_lt r target now rs same.1 open_r final (ground arith) in ground arith
]

allowed_open : (s target : RequestState) → allowed s target ≡ true → is_terminal s ≡ false
unfolding allowed
allowed_open s target h = ground arith

outbox_count :
    (target : RequestState) (before after : List Notification)
    → IsOutbox target before after
    → count_rows is_pending after
      ≡ count_rows is_pending before + (if notifies target then 1 else 0)
outbox_count target before after (silent q e) = rw e (rw q (omega arith))
outbox_count target before after (notified m t p apart e) =
    let added = count_rows-append is_pending before m in rw e (rw t (ground arith))

reserve_kept :
    (c : Capacity) (r : Request) (target : RequestState) (db : Store) (pending_after open_after : ℕ)
    → notification_capacity c target db ≡ ok tt
    → pending_after ≡ pending_count db + (if notifies target then 1 else 0)
    → open_after ≤ open_count db
    → (is_terminal target ≡ true → open_after + 1 ≤ open_count db)
    → pending_count db + open_count db ≤ c.max_notifications
    → pending_after + open_after ≤ c.max_notifications
unfolding notification_capacity
reserve_kept c r target db p o room counted le lt within = ground (arith, lt)

pub advanced-IsReserved :
    (c : Capacity) (r : Request) (update_id : String) (target : RequestState)
    (summary : Option String) (now : ℕ) (db db' : Store)
    → IsReserved c db
    → IsStored r db
    → IsAdvanced c r update_id target summary now db db'
    → IsReserved c db'
advanced-IsReserved c r update_id target summary now db db' reserved stored a =
    let same = same_row r db reserved.unique stored in
    let closed = allowed_open r.state target a.was_allowed in
    let open_r : is_open r ≡ true = ground arith in
    let hit =
      any_row-find_row (with_request_id r.request_id) (current r) db.requests stored
        (current_self r) in
    let count : open_count db'
        ≡ count_rows is_open (update_rows (current r) (moved target now) db.requests) =
      ap (count_rows is_open) a.requests in
    record {
      unique =
          subst (λ rs. Distinct (map (λ q. q.request_id) rs)) (sym a.requests)
            (subst Distinct
              (sym (
                map-update_rows (λ q. q.request_id) (current r) (moved target now) (λ q. refl)
                  db.requests))
              reserved.unique);
      within =
          reserve_kept c r target db (pending_count db') (open_count db') a.room
            (outbox_count target db.notifications db'.notifications a.outbox)
            (rw count (open_count_le r target now db.requests same open_r))
            (λ final. rw count (open_count_lt r target now db.requests same open_r final hit))
            reserved.within;
    }

pub moved-IsReserved :
    (c : Capacity) (r : Request) (update_id : String) (summary : Option String) (now : ℕ)
    (db db' : Store)
    → IsReserved c db
    → IsStored r db
    → IsMoved c r update_id summary now db db'
    → IsReserved c db'
moved-IsReserved c r update_id summary now db db' reserved stored (known e) =
    subst (IsReserved c) (sym e) reserved
moved-IsReserved c r update_id summary now db db' reserved stored (advanced target a) =
    advanced-IsReserved c r update_id target summary now db db' reserved stored a
