-- ===== src/Requests/Posted.antt =====
-- What the moves of requests do to the table of notifications.
use codex_monitor.Common.{
  ℕ, ◌≡◌, refl, sym, subst, String, Bool, true, false, Option, List, [], ◌∷◌, ◌++◌, map, arith, inl,
  inr, find_row, any_row, All, Distinct, by_key, Distinct-insert, any_row-append, Distinct-SameRow,
  any_row_of_All, SameRow, All-find_row, find_row-hit, find_row-none-All, ◌==◌, ◌&&◌, eq_iff,
  eq_refl, none, Option-cases, All-mono,
}
use codex_monitor.Requests.State.{Request, RequestState, Notification, Store, Capacity, is_pending}
use codex_monitor.Requests.Updates.{clashes}
use codex_monitor.Requests.Cases.{IsOutbox, silent, notified, IsMoved, known, advanced}
use codex_monitor.Requests.Steps.{IsCreated, same_store, added_one}
use codex_monitor.Requests.Grown.{Grown}

abbrev pub DistinctNotes : List Notification → Type 0
DistinctNotes ns = Distinct (map (λ n. n.notification_id) ns)

-- A property of the table that a new pending notification, of a new id, keeps.
abbrev pub Appends : (List Notification → Type 0) → Type 0
Appends P =
    (m : Notification) (ns : List Notification)
    → is_pending m ≡ true
    → any_row (clashes m) ns ≡ false
    → P ns
    → P (ns ++ m ∷ [])

outbox_kept :
    (P : List Notification → Type 0) (target : RequestState) (before after : List Notification)
    → Appends P
    → IsOutbox target before after
    → P before
    → P after
outbox_kept P target before after f (silent q e) h = subst P (sym e) h
outbox_kept P target before after f (notified m t p apart e) h =
    subst P (sym e) (f m before p apart h)

moved_kept :
    (c : Capacity) (P : List Notification → Type 0) (r : Request) (update_id : String)
    (summary : Option String) (now : ℕ) (db db' : Store)
    → Appends P
    → IsMoved c r update_id summary now db db'
    → P db.notifications
    → P db'.notifications
moved_kept c P r update_id summary now db db' f (known e) h =
    subst (λ d. P d.notifications) (sym e) h
moved_kept c P r update_id summary now db db' f (advanced target a) h =
    outbox_kept P target db.notifications db'.notifications f a.outbox h

created_kept :
    (c : Capacity) (P : List Notification → Type 0) (fresh : String) (now : ℕ) (db db' : Store)
    → IsCreated c fresh now db db'
    → P db.notifications
    → P db'.notifications
created_kept c P fresh now db db' (same_store e) h = subst (λ d. P d.notifications) (sym e) h
created_kept c P fresh now db db' (added_one d free room e) h =
    subst (λ d. P d.notifications) (sym e) h

-- The operations of clients keep such a property.
pub Appends-Grown :
    (c : Capacity) (P : List Notification → Type 0) → Appends P → Grown c (λ db. P db.notifications)
Appends-Grown c P f = record {
  on_moved = λ r update_id summary now db db' unique stored m h.
      moved_kept c P r update_id summary now db db' f m h;
  on_created = λ fresh now db db' unique m h. created_kept c P fresh now db db' m h;
}

apart_by_id :
    (m : Notification) (ns : List Notification)
    → any_row (clashes m) ns ≡ false
    → any_row (by_key (λ n. n.notification_id) m.notification_id) ns ≡ false
unfolding any_row
apart_by_id m [] h = refl
apart_by_id m (n ∷ ns) h = ground (arith, apart_by_id m ns)

pub DistinctNotes-Appends : Appends DistinctNotes
DistinctNotes-Appends m ns p apart d =
    Distinct-insert (λ n. n.notification_id) ns m d (apart_by_id m ns apart)

-- The table has a row with the id, the binding and the envelope of this one.
abbrev pub is_row : Notification → Notification → Bool
is_row item m =
    m.notification_id == item.notification_id
    && (m.original_binding == item.original_binding && m.envelope == item.envelope)

pub is_row-Appends : (item : Notification) → Appends (λ ns. any_row (is_row item) ns ≡ true)
is_row-Appends item m ns p apart h = any_row-append (is_row item) ns m h

-- Where ids are distinct, a row of the item's id has the item's binding and envelope.
pub is_row_unique :
    (item : Notification) (ns : List Notification)
    → DistinctNotes ns
    → any_row (is_row item) ns ≡ true
    → All (λ m. (m.notification_id == item.notification_id) ≡ true → is_row item m ≡ true) ns
is_row_unique item ns d h = elim (Option-cases (find_row (is_row item) ns)) [
  | inl none_found ↦ absurd (missing ns h none_found)
  | inr (x, found) ↦
      let hit = find_row-hit (is_row item) ns found in
      let same =
        All-find_row (λ r. SameRow (λ n. n.notification_id) r ns) (is_row item) ns
          (Distinct-SameRow (λ n. n.notification_id) ns d) found in
      All-mono _ _ (λ m s e. read x m hit s e) ns same
]
  where
    missing :
        (ms : List Notification)
        → any_row (is_row item) ms ≡ true
        → find_row (is_row item) ms ≡ none
        → ⊥
    missing ms k e =
        let none_there : any_row (is_row item) ms ≡ false =
          any_row_of_All (is_row item) ms (find_row-none-All (is_row item) ms e) in
        ground (arith, k, none_there)

    read :
        (x m : Notification)
        → is_row item x ≡ true
        → (by_key (λ n. n.notification_id) x.notification_id m ≡ true → m ≡ x)
        → (m.notification_id == item.notification_id) ≡ true
        → is_row item m ≡ true
    read x m hit same e =
        let ids : by_key (λ n. n.notification_id) x.notification_id m ≡ true = ground (
          arith,
          hit,
          e,
          eq_iff x.notification_id item.notification_id,
          eq_iff m.notification_id item.notification_id,
          eq_iff m.notification_id x.notification_id,
        ) in
        subst (λ k. is_row item k ≡ true) (sym (same ids)) hit

present_behind :
    (n : Notification) (ms ns : List Notification)
    → All (λ k. any_row (is_row k) ms ≡ true) ns
    → All (λ k. any_row (is_row k) (n ∷ ms) ≡ true) ns
unfolding any_row
present_behind n ms [] h = tt
present_behind n ms (k ∷ ns) h = (ground (arith, h.0), present_behind n ms ns h.1)

pub self_rows : (ns : List Notification) → All (λ n. any_row (is_row n) ns ≡ true) ns
unfolding any_row
self_rows [] = tt
self_rows (n ∷ ns) = (
  ground (arith, eq_refl n.notification_id, eq_refl n.original_binding, eq_refl n.envelope),
  present_behind n ns ns (self_rows ns),
)
