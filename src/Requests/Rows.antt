-- ===== src/Requests/Rows.antt =====
-- What the operations keep of the row that a query finds: the columns that no transition writes.
use codex_monitor.Common.{
  ℕ, ◌≡◌, subst, sym, String, Bool, Option, Finds, Finds-append, Finds-update,
}
use codex_monitor.Requests.State.{RequestState, Request, Update, Store, Capacity}
use codex_monitor.Requests.Updates.{moved, current}
use codex_monitor.Requests.Cases.{IsMoved, known, advanced}
use codex_monitor.Requests.Steps.{IsCreated, same_store, added_one}
use codex_monitor.Requests.Kept.{IsDrained, untouched, written, Kept}

module _ (c : Capacity) (p : Request → Bool) (P : Request → Type 0)
    (same : (s : RequestState) (now : ℕ) (r : Request) → p (moved s now r) ≡ p r)
    (keep : (s : RequestState) (now : ℕ) (r : Request) → P r → P (moved s now r)) where
  abbrev Row : Store → Type 0
  Row db = Finds p P db.requests

  Row-moved :
      {r : Request} {update_id : String} {summary : Option String} {now : ℕ} (db db' : Store)
      → IsMoved c r update_id summary now db db'
      → Row db
      → Row db'
  Row-moved db db' (known e) h = subst Row (sym e) h
  Row-moved {r} {now} db db' (advanced target a) h = subst (Finds p P) (sym a.requests) (
      Finds-update p P (current r) (moved target now) (same target now) (keep target now)
        db.requests h)

  Row-created :
      (fresh : String) (now : ℕ) (db db' : Store) → IsCreated c fresh now db db' → Row db → Row db'
  Row-created fresh now db db' (same_store e) h = subst Row (sym e) h
  Row-created fresh now db db' (added_one d free room e) h =
      subst Row (sym e) (Finds-append p P db.requests _ h)

  Row-drained : (db db' : Store) → IsDrained db db' → Row db → Row db'
  Row-drained db db' (untouched e) h = subst Row (sym e) h
  Row-drained db db' (written id f s e) h = subst Row (sym e) h

  pub Row-Kept : Kept c Row
  Row-Kept = record {
    on_moved = λ r update_id summary now db db' unique stored m h. Row-moved db db' m h;
    on_created = λ fresh now db db' unique m h. Row-created fresh now db db' m h;
    on_drained = λ db db' m h. Row-drained db db' m h;
  }

-- Updates are only ever added.
module _ (c : Capacity) (p : Update → Bool) (P : Update → Type 0) where
  abbrev Noted : Store → Type 0
  Noted db = Finds p P db.updates

  Noted-moved :
      {r : Request} {update_id : String} {summary : Option String} {now : ℕ} (db db' : Store)
      → IsMoved c r update_id summary now db db'
      → Noted db
      → Noted db'
  Noted-moved db db' (known e) h = subst Noted (sym e) h
  Noted-moved db db' (advanced target a) h =
      subst (Finds p P) (sym a.updates) (Finds-append p P db.updates _ h)

  Noted-created :
      (fresh : String) (now : ℕ) (db db' : Store)
      → IsCreated c fresh now db db'
      → Noted db
      → Noted db'
  Noted-created fresh now db db' (same_store e) h = subst Noted (sym e) h
  Noted-created fresh now db db' (added_one d free room e) h = subst Noted (sym e) h

  Noted-drained : (db db' : Store) → IsDrained db db' → Noted db → Noted db'
  Noted-drained db db' (untouched e) h = subst Noted (sym e) h
  Noted-drained db db' (written id f s e) h = subst Noted (sym e) h

  pub Noted-Kept : Kept c Noted
  Noted-Kept = record {
    on_moved = λ r update_id summary now db db' unique stored m h. Noted-moved db db' m h;
    on_created = λ fresh now db db' unique m h. Noted-created fresh now db db' m h;
    on_drained = λ db db' m h. Noted-drained db db' m h;
  }
