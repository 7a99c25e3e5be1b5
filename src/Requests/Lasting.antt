-- ===== src/Requests/Lasting.antt =====
-- What no later operation changes: a finished request, and a delivered notification.
use codex_monitor.Common.{
  ℕ, ◌≡◌, sym, ◌∙◌, subst, String, true, false, Option, some, List, [], ◌∷◌, arith, ◌==◌, eq_iff,
  inl, inr, find_row, update_rows, find_row-append_some, Bool-cases,
}
use codex_monitor.Requests.State.{
  RequestState, Request, Notification, Store, Capacity, is_terminal, is_pending, with_request_id,
  with_notification_id,
}
use codex_monitor.Requests.Updates.{allowed}
use codex_monitor.Requests.Outbox.{open_notification}
use codex_monitor.Requests.Machine.{Op, Setup, run}
use codex_monitor.Requests.Cases.{IsOutbox, silent, notified, IsMoved, known, advanced}
use codex_monitor.Requests.Reserved.{UniqueRequests, IsStored}
use codex_monitor.Requests.Steps.{IsCreated, same_store, added_one, moved-IsStored}
use codex_monitor.Requests.Kept.{IsDrained, untouched, written, Kept, run_kept}

final_forbids : (s target : RequestState) → is_terminal s ≡ true → allowed s target ≡ true → ⊥
unfolding allowed
final_forbids s target final h = ground arith

same_id :
    (r s : Request) (db : Store)
    → (r.request_id == s.request_id) ≡ true
    → IsStored r db
    → IsStored s db
    → r ≡ s
same_id r s db same stored_r stored_s =
    let e : r.request_id ≡ s.request_id = ground (arith, eq_iff r.request_id s.request_id) in
    let found : find_row (with_request_id s.request_id) db.requests ≡ some r =
      subst (λ i. find_row (with_request_id i) db.requests ≡ some r) e stored_r in
    let both : some r ≡ some s = sym found ∙ stored_s in cc

final_moved :
    (c : Capacity) (s r : Request) (update_id : String) (summary : Option String) (now : ℕ)
    (db db' : Store)
    → is_terminal s.state ≡ true
    → IsStored r db
    → IsMoved c r update_id summary now db db'
    → IsStored s db
    → IsStored s db'
final_moved c s r update_id summary now db db' final stored_r (known e) stored =
    subst (IsStored s) (sym e) stored
final_moved c s r update_id summary now db db' final stored_r (advanced target a) stored =
    elim (Bool-cases (r.request_id == s.request_id)) [
      | inl same ↦
          let e = same_id r s db same stored_r stored in
          absurd (
            final_forbids s.state target final
              (subst (λ q. allowed q.state target ≡ true) e a.was_allowed))
      | inr apart ↦
          moved-IsStored c r s update_id summary now db db' apart stored (advanced target a)
    ]

final_created :
    (c : Capacity) (s : Request) (fresh : String) (now : ℕ) (db db' : Store)
    → IsCreated c fresh now db db'
    → IsStored s db
    → IsStored s db'
final_created c s fresh now db db' (same_store e) stored = subst (IsStored s) (sym e) stored
final_created c s fresh now db db' (added_one d free room e) stored =
    subst (IsStored s) (sym e)
      (find_row-append_some (with_request_id s.request_id) db.requests _ s stored)

final_drained : (s : Request) (db db' : Store) → IsDrained db db' → IsStored s db → IsStored s db'
final_drained s db db' (untouched e) stored = subst (IsStored s) (sym e) stored
final_drained s db db' (written id f same e) stored = subst (IsStored s) (sym e) stored

final_kept : (c : Capacity) (s : Request) → is_terminal s.state ≡ true → Kept c (IsStored s)
final_kept c s final = record {
  on_moved = λ r update_id summary now db db' unique stored_r m stored.
      final_moved c s r update_id summary now db db' final stored_r m stored;
  on_created = λ fresh now db db' unique m stored. final_created c s fresh now db db' m stored;
  on_drained = λ db db' m stored. final_drained s db db' m stored;
}

-- A request in a terminal state is final: no operations change any part of its row, where request
-- ids are unique.
pub run_final :
    (u : Setup) (db : Store) (ops : List Op) (r : Request)
    → UniqueRequests db
    → is_terminal r.state ≡ true
    → IsStored r db
    → IsStored r (run u db ops)
run_final u db ops r unique final stored =
    run_kept u (IsStored r) (final_kept u.capacity r final) db ops unique stored

-- The notification `n` is the table's row of its id.
abbrev pub IsPosted : Notification → Store → Type 0
IsPosted n db = find_row (with_notification_id n.notification_id) db.notifications ≡ some n

delivered_moved :
    (n : Notification) (before after : List Notification) (target : RequestState)
    → IsOutbox target before after
    → find_row (with_notification_id n.notification_id) before ≡ some n
    → find_row (with_notification_id n.notification_id) after ≡ some n
delivered_moved n before after target (silent q e) h = rw e h
delivered_moved n before after target (notified m t p apart e) h =
    rw e (find_row-append_some (with_notification_id n.notification_id) before _ n h)

-- An update of the pending rows leaves the first row alone where it is not pending.
delivered_written :
    (n : Notification) (id : String) (f : Notification → Notification) (ns : List Notification)
    → is_pending n ≡ false
    → find_row (with_notification_id n.notification_id) ns ≡ some n
    → ((m : Notification) → (f m).notification_id ≡ m.notification_id)
    → find_row (with_notification_id n.notification_id) (update_rows (open_notification id) f ns)
      ≡ some n
unfolding find_row update_rows
delivered_written n id f [] closed h same = cc
delivered_written n id f (m ∷ ns) closed h same =
    elim (Bool-cases (with_notification_id n.notification_id m)) [
      | inl t ↦
          let e : m ≡ n = ground arith in
          let shut : is_pending m ≡ false = subst (λ k. is_pending k ≡ false) (sym e) closed in
          ground (arith, shut)
      | inr t ↦
          let rest = delivered_written n id f ns closed (ground arith) same in
          ground (arith, same m)
    ]

delivered_kept : (c : Capacity) (n : Notification) → is_pending n ≡ false → Kept c (IsPosted n)
delivered_kept c n closed = record {
  on_moved = λ r update_id summary now db db' unique stored m h. after_move db db' m h;
  on_created = λ fresh now db db' unique m h. after_create fresh now db db' m h;
  on_drained = λ db db' m h. after_drain db db' m h;
}
  where
    after_move :
        {r : Request} {update_id : String} {summary : Option String} {now : ℕ} (db db' : Store)
        → IsMoved c r update_id summary now db db'
        → IsPosted n db
        → IsPosted n db'
    after_move db db' (known e) h = subst (IsPosted n) (sym e) h
    after_move db db' (advanced target a) h =
        delivered_moved n db.notifications db'.notifications target a.outbox h

    after_create :
        (fresh : String) (now : ℕ) (db db' : Store)
        → IsCreated c fresh now db db'
        → IsPosted n db
        → IsPosted n db'
    after_create fresh now db db' (same_store e) h = subst (IsPosted n) (sym e) h
    after_create fresh now db db' (added_one d free room e) h = subst (IsPosted n) (sym e) h

    after_drain : (db db' : Store) → IsDrained db db' → IsPosted n db → IsPosted n db'
    after_drain db db' (untouched e) h = subst (IsPosted n) (sym e) h
    after_drain db db' (written id f same e) h =
        subst (IsPosted n) (sym e) (delivered_written n id f db.notifications closed h same)

-- A notification that was accepted keeps its delivery and is never pending again: no operations
-- change its row, where request ids are unique.
pub run_delivered :
    (u : Setup) (db : Store) (ops : List Op) (n : Notification)
    → UniqueRequests db
    → is_pending n ≡ false
    → IsPosted n db
    → IsPosted n (run u db ops)
run_delivered u db ops n unique closed posted =
    run_kept u (IsPosted n) (delivered_kept u.capacity n closed) db ops unique posted
