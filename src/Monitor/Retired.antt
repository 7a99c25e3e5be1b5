-- ===== src/Monitor/Retired.antt =====
-- A route that was removed: the tombstone stays, and nothing goes through the route again.
use codex_monitor.Common.{
  ℕ, ◌≡◌, refl, sym, subst, String, Bool, true, false, Option, none, some, List, [], ◌∷◌, ◌++◌,
  arith, All, All-append, All-update_rows, All-mono, Bool-cases, inl, inr, eq_iff, any_row,
  any_row-append, any_row-update_rows, update_rows, ap, find_row, find_row-hit, any_row_of_All,
  ◌==◌, ◌∙◌, ok, All-find_row, bind_ok,
}
use codex_monitor.Json.{Value}
use codex_monitor.Monitor.State.{Binding, Event, Db, Limits, Codec}
use codex_monitor.Monitor.Intake.{Header, Receipt, named, admit, intake, ingest, validate, routed}
use codex_monitor.Monitor.Dispatch.{next_due, open_route}
use codex_monitor.Monitor.Machine.{Op, Setup, step, run}
use codex_monitor.Monitor.Rules.{All-next_due}
use codex_monitor.Monitor.RouteTable.{Keeps, bindings-kept}

abbrev pub IsTombstone : String → Binding → Type 0
IsTombstone name b = (b.name == name) ≡ true → b.removed ≡ true

-- The route of that name exists and is removed.
pub record IsRetired (name : String) (bindings : List Binding) : Type 0 where
  pub exists : any_row (named name) bindings ≡ true
  pub removed : All (IsTombstone name) bindings

update-IsRetired :
    (name : String) (p : Binding → Bool) (f : Binding → Binding) (bs : List Binding)
    → ((b : Binding) → (f b).name ≡ b.name)
    → ((b : Binding) → p b ≡ true → b.removed ≡ true → (f b).removed ≡ true)
    → IsRetired name bs
    → IsRetired name (update_rows p f bs)
update-IsRetired name p f bs same keep r = record {
  exists = any_row-update_rows (named name) p f (λ b. ap (λ k. k == name) (same b)) bs ∙ r.exists;
  removed =
      All-update_rows (IsTombstone name) p f
        (λ b t h hit. keep b t (h (ap (λ k. k == name) (sym (same b)) ∙ hit))) bs r.removed;
}

insert-IsRetired :
    (name : String) (b : Binding) (bs : List Binding)
    → any_row (named b.name) bs ≡ false
    → IsRetired name bs
    → IsRetired name (bs ++ b ∷ [])
insert-IsRetired name b bs new r = record {
  exists = any_row-append (named name) bs b r.exists;
  removed =
      All-append (IsTombstone name) bs b r.removed
        λ hit. absurd (clash ((eq_iff b.name name).0 hit) new);
}
  where
    clash : b.name ≡ name → any_row (named b.name) bs ≡ false → ⊥
    clash e f = cc (subst (λ k. any_row (named k) bs ≡ false) e f, r.exists)

Retired-Keeps : (name : String) → Keeps (IsRetired name)
Retired-Keeps name = record {
  grow = λ b bs new r. insert-IsRetired name b bs new r;
  update = λ p f bs safe r. update-IsRetired name p f bs safe.name safe.tombstone r;
}

run-IsRetired :
    (u : Setup) (db : Db) (ops : List Op) (name : String)
    → IsRetired name db.bindings
    → IsRetired name (run u db ops).bindings
unfolding run
run-IsRetired u db [] name r = r
run-IsRetired u db (op ∷ ops) name r =
    run-IsRetired u (step u db op) ops name
      (bindings-kept (IsRetired name) (Retired-Keeps name) u db op r)

closed_to_dispatch :
    (now : ℕ) (db : Db) (row : Event) (name : String)
    → IsRetired name db.bindings
    → next_due now db ≡ some row
    → (row.binding == name) ≡ false
closed_to_dispatch now db row name r due = elim (Bool-cases (row.binding == name)) [
  | inr f ↦ f
  | inl t ↦
      let picked = (All-next_due (λ _. Unit {0}) now db (trivial db.events) due).1 in
      let route = any_row_of_All (open_route row) db.bindings (
        All-mono _ _
          (λ b dead.
            ground
              (arith, dead, eq_iff row.binding name, eq_iff b.name row.binding, eq_iff b.name name))
          db.bindings r.removed) in
      absurd (ground (arith, picked, route))
]
  where
    trivial : (es : List Event) → All (λ _. Unit {0}) es
    trivial [] = tt
    trivial (e ∷ es) = (tt, trivial es)

closed_to_intake :
    (codec : Codec) (l : Limits) (fresh : String) (now : ℕ) (name : String) (envelope : Value)
    (db db' : Db) (receipt : Receipt)
    → IsRetired name db.bindings
    → ingest codec l fresh now name envelope db ≡ ok (db', receipt)
    → (receipt.duplicate ≡ true) × (db' ≡ db)
unfolding ingest routed intake
closed_to_intake codec l fresh now name envelope db db' receipt r e =
    let (h, valid, taken) = bind_ok (validate codec envelope) _ e in
    known h (find_row (named name) db.bindings) refl taken
  where
    known :
        (h : Header) (o : Option Binding)
        → find_row (named name) db.bindings ≡ o
        → routed codec l fresh now name h db o ≡ ok (db', receipt)
        → (receipt.duplicate ≡ true) × (db' ≡ db)
    known h none f t = unfold routed in cc
    known h (some b) f t =
        let dead : b.removed ≡ true =
          All-find_row (IsTombstone name) (named name) db.bindings r.removed f
            (find_row-hit (named name) db.bindings f) in
        unfold routed admit in ground arith

-- Once a route is removed it is removed for good: after any operations no delivery is taken from its
-- queue.
pub retired_dispatch :
    (u : Setup) (db : Db) (ops : List Op) (name : String) (now : ℕ) (row : Event)
    → IsRetired name db.bindings
    → next_due now (run u db ops) ≡ some row
    → (row.binding == name) ≡ false
retired_dispatch u db ops name now row r =
    closed_to_dispatch now (run u db ops) row name (run-IsRetired u db ops name r)

-- Once a route is removed, and after any operations, `ingest` on it succeeds only for an event that
-- is stored already, and then changes nothing.
pub retired_ingest :
    (u : Setup) (db db' : Db) (ops : List Op) (name fresh : String) (now : ℕ) (envelope : Value)
    (receipt : Receipt)
    → IsRetired name db.bindings
    → ingest u.codec u.limits fresh now name envelope (run u db ops) ≡ ok (db', receipt)
    → (receipt.duplicate ≡ true) × (db' ≡ run u db ops)
retired_ingest u db db' ops name fresh now envelope receipt r =
    closed_to_intake u.codec u.limits fresh now name envelope (run u db ops) db' receipt
      (run-IsRetired u db ops name r)
