-- ===== src/Monitor/Order.antt =====
-- Which delivery `dispatch_once` picks, and when it picks none.
use codex_monitor.Common.{
  ℕ, ◌≡◌, ◌≤◌, subst, Bool, true, false, Option, none, some, List, [], ◌∷◌, arith, All, All-mono,
  All-of_any_row, select_rows, any_row, Bool-cases, inl, inr, ◌&&◌, leb, ◌==◌, refl, &&_split, not,
  ◌⊎◌,
}
use codex_monitor.Monitor.State.{Event, Db, Limits, is_active, is_pending}
use codex_monitor.Monitor.Dispatch.{
  Owner, before, blocks, is_due, open_route, earlier, first_in_order, next_due, claim_of, finish,
  dispatch_once, too_old,
}
use codex_monitor.Monitor.Rules.{All-next_due}

-- Row `row` of the table comes first: it is in the state to be sent, its time has come, its route is
-- open, no earlier event of its route is unsettled, and no other due row stands before it.
pub record IsNext (now : ℕ) (db : Db) (row : Event) : Type 0 where
  pub active : is_active row.state ≡ true
  pub arrived : row.next_at ≤ now
  pub routed : any_row (open_route row) db.bindings ≡ true
  pub oldest :
      All
        (λ e. (e.binding == row.binding) ≡ true → is_active e.state ≡ true → row.seq ≤ e.seq)
        db.events
  pub first : All (λ e. is_due now db e ≡ true → before row e ≡ true) db.events

before_refl : (e : Event) → before e e ≡ true
before_refl e = ground arith

before_trans : (a b c : Event) → before a b ≡ true → before b c ≡ true → before a c ≡ true
before_trans a b c p q = ground arith

before_total : (a b : Event) → before a b ≡ false → before b a ≡ true
before_total a b p = ground arith

first_of_earlier :
    (x : Event) (o : Option Event) (es : List Event) (row : Event)
    → earlier x o ≡ row
    → ((f : Event) → o ≡ some f → All (λ e. before f e ≡ true) es)
    → (o ≡ none → es ≡ [])
    → All (λ e. before row e ≡ true) (x ∷ es)
first_of_earlier x none es row e later last =
    subst (λ r. All (λ a. before r a ≡ true) (x ∷ es)) e (before_refl x, rw (last refl) tt)
first_of_earlier x (some f) es row e later last = elim (Bool-cases (before x f)) [
  | inl t ↦
      let is_x : x ≡ row = ground arith in
      subst (λ r. All (λ a. before r a ≡ true) (x ∷ es)) is_x
        (before_refl x, All-mono _ _ (λ a b. before_trans x f a t b) es (later f refl))
  | inr t ↦
      let is_f : f ≡ row = ground arith in
      subst (λ r. All (λ a. before r a ≡ true) (x ∷ es)) is_f (before_total x f t, later f refl)
]

first_in_order_nil : (es : List Event) → first_in_order es ≡ none → es ≡ []
unfolding first_in_order
first_in_order_nil [] h = refl
first_in_order_nil (e ∷ es) h = cc

first_in_order_first :
    (es : List Event) (row : Event)
    → first_in_order es ≡ some row
    → All (λ e. before row e ≡ true) es
unfolding first_in_order
first_in_order_first [] row h = tt
first_in_order_first (x ∷ es) row h =
    first_of_earlier x (first_in_order es) es row (cc) (λ f r. first_in_order_first es f r)
      (first_in_order_nil es)

selected {κ} :
    (P : Event → Type κ) (p : Event → Bool) (es : List Event)
    → All P (select_rows p es)
    → All (λ e. p e ≡ true → P e) es
unfolding select_rows
selected P p [] h = tt
selected P p (e ∷ es) h = elim (Bool-cases (p e)) [
  | inl t ↦ let k : P e × All P (select_rows p es) = rw t at h in ((λ _. k.0), selected P p es k.1)
  | inr t ↦ let k : All P (select_rows p es) = rw t at h in ((λ y. cc), selected P p es k)
]

-- The row that a dispatch takes is the next one by IsNext: each route is served in the order of its
-- events, an unsettled event holds back those behind it, and a paused or removed route is passed
-- over.
pub next_due_exact :
    (now : ℕ) (db : Db) (row : Event) → next_due now db ≡ some row → IsNext now db row
next_due_exact now db row due =
    let picked = (All-next_due (λ _. Unit {0}) now db (trivial db.events) due).1 in
    let parts = &&_split (is_active row.state) _ picked in
    let route =
      &&_split (any_row (open_route row) db.bindings)
        (leb row.next_at now && not (any_row (blocks row) db.events)) parts.1 in
    let timed = &&_split (leb row.next_at now) (not (any_row (blocks row) db.events)) route.1 in
    record {
      active = parts.0;
      arrived = ground arith;
      routed = route.0;
      oldest =
          All-mono _ _ (λ e no same active. ground arith) db.events
            (All-of_any_row (blocks row) db.events (ground arith));
      first =
          selected (λ e. before row e ≡ true) (is_due now db) db.events
            (unfold next_due in first_in_order_first _ row due);
    }
  where
    trivial : (es : List Event) → All (λ _. Unit {0}) es
    trivial [] = tt
    trivial (e ∷ es) = (tt, trivial es)

select_rows_nil :
    {A : Type 0} (p : A → Bool) (rs : List A) → select_rows p rs ≡ [] → All (λ a. p a ≡ false) rs
unfolding select_rows
select_rows_nil p [] h = tt
select_rows_nil p (r ∷ rs) h = ground (arith, select_rows_nil p rs)

next_due-none :
    (now : ℕ) (db : Db) → next_due now db ≡ none → All (λ e. is_due now db e ≡ false) db.events
unfolding next_due
next_due-none now db h = select_rows_nil (is_due now db) db.events (first_in_order_nil _ h)

-- `dispatch_once` answers False exactly on an idle turn: then no event of the table is due, nothing
-- is written and no session is called. (On True some due row was taken.)
pub dispatch_once_idle :
    (owner : Owner) (l : Limits) (now later : ℕ) (db : Db)
    → ((dispatch_once owner l now later db).1 ≡ false
        × All (λ e. is_due now db e ≡ false) db.events
        × (dispatch_once owner l now later db ≡ (db, false, [])))
      ⊎ ((dispatch_once owner l now later db).1 ≡ true
          × ((row : Event) × (next_due now db ≡ some row)))
unfolding dispatch_once
dispatch_once_idle owner l now later db = go (next_due now db) refl
  where
    go :
        (o : Option Event)
        → next_due now db ≡ o
        → ((finish owner l later (claim_of l now db o) db).1 ≡ false
            × All (λ e. is_due now db e ≡ false) db.events
            × (finish owner l later (claim_of l now db o) db ≡ (db, false, [])))
          ⊎ ((finish owner l later (claim_of l now db o) db).1 ≡ true
              × ((row : Event) × (next_due now db ≡ some row)))
    go none due = inl (refl, next_due-none now db due, refl)
    go (some row) due = inr (
      elim (Bool-cases (is_pending row.state && too_old l now row)) [
        | inl t ↦ rw t refl
        | inr t ↦ rw t refl
      ],
      (row, due),
    )
