-- ===== src/Common/Rows.antt =====
-- Tables: a list of rows in the order of insertion, with the queries and updates that the stores'
-- SQL is made of, and the lemmas about them.
use Prim.Native.Nat.{ℕ, zero, suc, ◌+◌, ◌≤◌}
use mathlib.Core.Path.{◌≡◌, refl, ap, subst}
use mathlib.Core.Bool.{Bool, true, false}
use mathlib.Core.Option.{Option, none, some}
use mathlib.Core.List.{List, [], ◌∷◌, ◌++◌}
use native.Mathlib.Omega.{arith}
use codex_monitor.Common.Tests.{if◌then◌else◌, Bool-cases}
use mathlib.Core.Logic.{inl, inr}

module _ {ℓ} {A : Type ℓ} where
  abbrev pub length : List A → ℕ
  length [] = 0
  length (x ∷ xs) = suc (length xs)

  abbrev pub take : ℕ → List A → List A
  take zero xs = []
  take (suc n) [] = []
  take (suc n) (x ∷ xs) = x ∷ take n xs

  -- `SELECT * ... WHERE p` and `fetchone()`.
  unfoldable pub find_row : (A → Bool) → List A → Option A
  find_row p [] = none
  find_row p (r ∷ rs) = if p r then some r else find_row p rs

  -- `SELECT 1 ... WHERE p`.
  unfoldable pub any_row : (A → Bool) → List A → Bool
  any_row p [] = false
  any_row p (r ∷ rs) = if p r then true else any_row p rs

  -- `SELECT count(*) ... WHERE p`.
  unfoldable pub count_rows : (A → Bool) → List A → ℕ
  count_rows p [] = 0
  count_rows p (r ∷ rs) = (if p r then 1 else 0) + count_rows p rs

  -- `SELECT * ... WHERE p`.
  unfoldable pub select_rows : (A → Bool) → List A → List A
  select_rows p [] = []
  select_rows p (r ∷ rs) = let rest = select_rows p rs in if p r then r ∷ rest else rest

  -- `UPDATE ... SET f WHERE p`.
  unfoldable pub update_rows : (A → Bool) → (A → A) → List A → List A
  update_rows p f [] = []
  update_rows p f (r ∷ rs) = (if p r then f r else r) ∷ update_rows p f rs

  -- Every row satisfies `P`.
  abbrev pub All {κ} : (A → Type κ) → List A → Type κ
  All P [] = Unit
  All P (x ∷ xs) = P x × All P xs

module _ {ℓ} {A : Type ℓ} where
  pub find_row-hit : (p : A → Bool) (rs : List A) {r : A} → find_row p rs ≡ some r → p r ≡ true
  unfolding find_row
  find_row-hit p [] h = cc
  find_row-hit p (x ∷ rs) {r} h = ground (arith, find_row-hit p rs {r = r})

  pub find_row-append :
      (p : A → Bool) (rs : List A) (x : A)
      → find_row p rs ≡ none
      → p x ≡ true
      → find_row p (rs ++ x ∷ []) ≡ some x
  unfolding find_row
  find_row-append p [] x h k = ground arith
  find_row-append p (r ∷ rs) x h k = ground (arith, find_row-append p rs x)

  -- A row that is found stays found when rows are added.
  pub find_row-append_some :
      (p : A → Bool) (rs ys : List A) (x : A)
      → find_row p rs ≡ some x
      → find_row p (rs ++ ys) ≡ some x
  unfolding find_row
  find_row-append_some p [] ys x h = cc
  find_row-append_some p (r ∷ rs) ys x h = ground (arith, find_row-append_some p rs ys x)

  pub find_row-none-All :
      (p : A → Bool) (rs : List A) → find_row p rs ≡ none → All (λ r. p r ≡ false) rs
  unfolding find_row
  find_row-none-All p [] h = tt
  find_row-none-All p (r ∷ rs) h = ground (arith, find_row-none-All p rs)

  pub All-find_row {κ} :
      (P : A → Type κ) (p : A → Bool) (rs : List A) {r : A}
      → All P rs
      → find_row p rs ≡ some r
      → P r
  unfolding find_row
  All-find_row P p [] h e = cc
  All-find_row P p (x ∷ rs) {r} h e = elim (Bool-cases (p x)) [
    | inl t ↦ subst P (ground arith) h.0
    | inr t ↦ All-find_row P p rs h.1 (ground arith)
  ]

  pub All-append {κ} :
      (P : A → Type κ) (rs : List A) (x : A) → All P rs → P x → All P (rs ++ x ∷ [])
  All-append P [] x h k = (k, tt)
  All-append P (r ∷ rs) x h k = (h.0, All-append P rs x h.1 k)

  pub All-mono {κ μ} :
      (P : A → Type κ) (Q : A → Type μ)
      → ((a : A) → P a → Q a)
      → (rs : List A) → All P rs
      → All Q rs
  All-mono P Q f [] h = tt
  All-mono P Q f (r ∷ rs) h = (f r h.0, All-mono P Q f rs h.1)

  pub All-update_rows {κ} :
      (P : A → Type κ) (p : A → Bool) (f : A → A)
      → ((a : A) → p a ≡ true → P a → P (f a))
      → (rs : List A) → All P rs
      → All P (update_rows p f rs)
  unfolding update_rows
  All-update_rows P p f keep [] h = tt
  All-update_rows P p f keep (r ∷ rs) h =
      let rest = All-update_rows P p f keep rs h.1 in
      elim (Bool-cases (p r)) [ inl t ↦ rw t (keep r t h.0, rest) | inr t ↦ rw t (h.0, rest) ]

  pub All-always {κ} : (P : A → Type κ) → ((a : A) → P a) → (rs : List A) → All P rs
  All-always P f [] = tt
  All-always P f (r ∷ rs) = (f r, All-always P f rs)

  pub All-update_to {κ μ} :
      (P : A → Type κ) (Q : A → Type μ) (p : A → Bool) (f : A → A)
      → ((a : A) → p a ≡ true → P a → Q (f a))
      → ((a : A) → P a → Q a)
      → (rs : List A) → All P rs
      → All Q (update_rows p f rs)
  unfolding update_rows
  All-update_to P Q p f hit rest [] h = tt
  All-update_to P Q p f hit rest (r ∷ rs) h =
      let others = All-update_to P Q p f hit rest rs h.1 in
      elim (Bool-cases (p r)) [
        | inl t ↦ rw t (hit r t h.0, others)
        | inr t ↦ rw t (rest r h.0, others)
      ]

  pub count_rows-append :
      (p : A → Bool) (rs : List A) (x : A)
      → count_rows p (rs ++ x ∷ []) ≡ count_rows p rs + (if p x then 1 else 0)
  unfolding count_rows
  count_rows-append p [] x = omega arith
  count_rows-append p (r ∷ rs) x = omega (arith, count_rows-append p rs x)

  -- An update that makes no row count which did not count before adds none to the count.
  pub count_rows-update_le :
      (q p : A → Bool) (f : A → A)
      → ((a : A) → p a ≡ true → q (f a) ≡ true → q a ≡ true)
      → (rs : List A) → count_rows q (update_rows p f rs) ≤ count_rows q rs
  unfolding count_rows update_rows
  count_rows-update_le q p f keep [] = omega arith
  count_rows-update_le q p f keep (r ∷ rs) =
      ground (arith, keep r, count_rows-update_le q p f keep rs)

  pub length-update_rows :
      (p : A → Bool) (f : A → A) (rs : List A) → length (update_rows p f rs) ≡ length rs
  unfolding update_rows
  length-update_rows p f [] = refl
  length-update_rows p f (r ∷ rs) = ap suc (length-update_rows p f rs)

  pub length-append_one : (rs : List A) (x : A) → length (rs ++ x ∷ []) ≡ suc (length rs)
  length-append_one [] x = refl
  length-append_one (r ∷ rs) x = ap suc (length-append_one rs x)
