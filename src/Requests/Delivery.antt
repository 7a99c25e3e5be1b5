-- ===== src/Requests/Delivery.antt =====
-- The order in which `pending_notifications` hands out the outbox.
use codex_monitor.Common.{
  ℕ, zero, suc, ◌≤◌, ◌≡◌, subst, true, false, ◌&&◌, List, [], ◌∷◌, arith, leb, inl, inr, Bool-cases,
  ok, require_ok, All, All-take, All-select_rows, All-mono, any_row, select_rows, length, take,
}
use codex_monitor.Requests.State.{Notification, is_pending, Store}
use codex_monitor.Requests.Outbox.{
  holds_back, ready, due_before, insert_due, sort_due, pending_notifications,
}

abbrev pub IsSorted : List Notification → Type 0
IsSorted [] = Unit
IsSorted (n ∷ ns) = All (λ m. due_before n m ≡ true) ns × IsSorted ns

before_trans :
    (a b c : Notification) → due_before a b ≡ true → due_before b c ≡ true → due_before a c ≡ true
before_trans a b c h k = ground arith

before_total : (a b : Notification) → due_before a b ≡ false → due_before b a ≡ true
before_total a b h = ground arith

insert_due-All :
    (P : Notification → Type 0) (n : Notification) (ns : List Notification)
    → P n
    → All P ns
    → All P (insert_due n ns)
unfolding insert_due
insert_due-All P n [] p h = (p, tt)
insert_due-All P n (m ∷ ms) p h = elim (Bool-cases (due_before n m)) [
  | inl t ↦ rw t (p, h)
  | inr t ↦ rw t (h.0, insert_due-All P n ms p h.1)
]

insert_due-IsSorted :
    (n : Notification) (ns : List Notification) → IsSorted ns → IsSorted (insert_due n ns)
unfolding insert_due
insert_due-IsSorted n [] s = (tt, tt)
insert_due-IsSorted n (m ∷ ms) s = elim (Bool-cases (due_before n m)) [
  | inl t ↦ rw t ((t, All-mono _ _ (λ k h. before_trans n m k t h) ms s.0), s)
  | inr t ↦ rw t (
    insert_due-All (λ k. due_before m k ≡ true) n ms (before_total n m t) s.0,
    insert_due-IsSorted n ms s.1,
  )
]

pub sort_due-All :
    (P : Notification → Type 0) (ns : List Notification) → All P ns → All P (sort_due ns)
unfolding sort_due
sort_due-All P [] h = tt
sort_due-All P (n ∷ ns) h = insert_due-All P n (sort_due ns) h.0 (sort_due-All P ns h.1)

sort_due-IsSorted : (ns : List Notification) → IsSorted (sort_due ns)
unfolding sort_due
sort_due-IsSorted [] = tt
sort_due-IsSorted (n ∷ ns) = insert_due-IsSorted n (sort_due ns) (sort_due-IsSorted ns)

take-IsSorted : (k : ℕ) (ns : List Notification) → IsSorted ns → IsSorted (take k ns)
take-IsSorted zero ns s = tt
take-IsSorted (suc k) [] s = tt
take-IsSorted (suc k) (n ∷ ns) s = (All-take _ k ns s.0, take-IsSorted k ns s.1)

length-take : (k : ℕ) (ns : List Notification) → length (take k ns) ≤ k
length-take zero ns = omega arith
length-take (suc k) [] = omega arith
length-take (suc k) (n ∷ ns) = omega (arith, length-take k ns)

-- A notification that may go out: it is pending, its time has come, and every notification of the
-- same request with a smaller revision has been accepted.
pub record IsReady (now : ℕ) (db : Store) (n : Notification) : Type 0 where
  pub waits : is_pending n ≡ true
  pub arrived : n.next_at ≤ now
  pub in_turn : any_row (holds_back n) db.notifications ≡ false

-- What `pending_notifications` returns is ready, comes in the order of (next_at, created), and is no
-- longer than the limit.
pub pending_notifications-IsReady :
    (limit now : ℕ) (db : Store) (ns : List Notification)
    → pending_notifications limit now db ≡ ok ns
    → All (IsReady now db) ns × IsSorted ns × (length ns ≤ limit)
unfolding pending_notifications
pending_notifications-IsReady limit now db ns e =
    let (_, e1) =
      require_ok (leb 1 limit && leb limit 100) 400 "notification limit must be 1..100" _ e in
    let chosen = select_rows (ready now db) db.notifications in
    let picked =
      All-select_rows (λ n. Unit {0}) (ready now db) db.notifications (every db.notifications) in
    let all =
      sort_due-All (IsReady now db) chosen (All-mono _ _ (λ n h. read n h.1) chosen picked) in
    let same : take limit (sort_due chosen) ≡ ns = ground arith in
    subst (λ k. All (IsReady now db) k × IsSorted k × (length k ≤ limit)) same
      (
        All-take (IsReady now db) limit (sort_due chosen) all,
        take-IsSorted limit (sort_due chosen) (sort_due-IsSorted chosen),
        length-take limit (sort_due chosen),
      )
  where
    every : (ms : List Notification) → All (λ n. Unit {0}) ms
    every [] = tt
    every (m ∷ ms) = (tt, every ms)

    read : (n : Notification) → ready now db n ≡ true → IsReady now db n
    read n h = record { waits = ground arith; arrived = ground arith; in_turn = ground arith }
