-- ===== src/Requests/Kept.antt =====
-- The steps of the store, seen as what they do to its tables.
use codex_monitor.Common.{
  ℕ, ◌≡◌, refl, sym, subst, inl, inr, String, Bool, Option, List, [], ◌∷◌, Result, ok, err,
}
use codex_monitor.Requests.State.{Request, Notification, Store, Capacity}
use codex_monitor.Requests.Outbox.{
  set_notification, delivered, failed_once, postponed, notification_accepted,
}
use codex_monitor.Requests.Machine.{Op, accepts, fails, defers, Setup, after, step, run}
use codex_monitor.Requests.Cases.{IsMoved}
use codex_monitor.Requests.Reserved.{UniqueRequests, IsStored}
use codex_monitor.Requests.Drained.{
  notification_accepted_writes, notification_error_writes, notification_deferred_writes,
}
use codex_monitor.Requests.Grown.{Grown, unique_created, after_pair_kept, step_grown}
use codex_monitor.Requests.Steps.{moved-UniqueRequests, IsCreated}

-- What the methods of the outbox leave: only notifications that were pending are written.
pub data IsDrained (db db' : Store) : Type 0 where
  untouched : db' ≡ db → IsDrained db db'
  written :
      (id : String) (f : Notification → Notification)
      → ((n : Notification) → (f n).notification_id ≡ n.notification_id)
      → db' ≡ set_notification id f db
      → IsDrained db db'

-- A property that each kind of change keeps.
pub record Kept {κ} (c : Capacity) (P : Store → Type κ) : Type κ where
  pub on_moved :
      (r : Request) (update_id : String) (summary : Option String) (now : ℕ) (db db' : Store)
      → UniqueRequests db
      → IsStored r db
      → IsMoved c r update_id summary now db db'
      → P db
      → P db'
  pub on_created :
      (fresh : String) (now : ℕ) (db db' : Store)
      → UniqueRequests db
      → IsCreated c fresh now db db'
      → P db
      → P db'
  pub on_drained : (db db' : Store) → IsDrained db db' → P db → P db'

pub grown_of {κ} : {c : Capacity} {P : Store → Type κ} → Kept c P → Grown c P
grown_of k = record { on_moved = k.on_moved; on_created = k.on_created }

unique_drained : (db db' : Store) → IsDrained db db' → UniqueRequests db → UniqueRequests db'
unique_drained db db' (untouched e) unique = subst UniqueRequests (sym e) unique
unique_drained db db' (written id f same e) unique = subst UniqueRequests (sym e) unique

pub Unique_kept : (c : Capacity) → Kept c UniqueRequests
Unique_kept c = record {
  on_moved = λ r update_id summary now db db' unique stored m _.
      moved-UniqueRequests c r update_id summary now db db' unique m;
  on_created = λ fresh now db db' unique m _. unique_created c fresh now db db' unique m;
  on_drained = λ db db' m unique. unique_drained db db' m unique;
}

module _ {κ} (u : Setup) (P : Store → Type κ) (kept : Kept u.capacity P) where
  accepted_by_method :
      (now : ℕ) (id delivery : String) (db db' : Store) (b : Bool)
      → notification_accepted now id delivery db ≡ ok (db', b)
      → IsDrained db db'
  accepted_by_method now id delivery db db' b e =
      elim (notification_accepted_writes now id delivery db db' b e) [
        | inl same ↦ untouched same
        | inr w ↦ written id (delivered now delivery) (λ m. refl) w
      ]

  after_kept :
      (db : Store) (o : Result Store) → P db → ((db' : Store) → o ≡ ok db' → P db') → P (after db o)
  after_kept db (ok db') p f = f db' refl
  after_kept db (err c m) p f = p

  -- Each step keeps the property, where request ids are unique.
  pub step_kept : (db : Store) (op : Op) → UniqueRequests db → P db → P (step u db op)
  unfolding step
  step_kept db (accepts now id delivery) unique h =
      after_pair_kept P db _ h
        λ db' b e. kept.on_drained db db' (accepted_by_method now id delivery db db' b e) h
  step_kept db (fails now id message retry_after) unique h = after_kept db _ h λ db' e.
      kept.on_drained db db'
        (written id (failed_once now message retry_after) (λ m. unfold failed_once in refl)
          (notification_error_writes u.blank now id message retry_after db db' e))
        h
  step_kept db (defers now id reason retry_after) unique h = after_kept db _ h λ db' e.
      kept.on_drained db db'
        (written id (postponed now reason retry_after) (λ m. unfold postponed in refl)
          (notification_deferred_writes u.blank now id reason retry_after db db' e))
        h
  step_kept db op unique h = step_grown u P (grown_of kept) db op tt unique h

-- So any operations keep it.
pub run_kept {κ} :
    (u : Setup) (P : Store → Type κ)
    → Kept u.capacity P
    → (db : Store) (ops : List Op) → UniqueRequests db
    → P db
    → P (run u db ops)
unfolding run
run_kept u P kept db [] unique h = h
run_kept u P kept db (op ∷ ops) unique h =
    run_kept u P kept (step u db op) ops
      (step_kept u UniqueRequests (Unique_kept u.capacity) db op unique unique)
      (step_kept u P kept db op unique h)
