-- ===== src/Common/Lookups.antt =====
-- A query that finds a row with a property: what later writes of the table leave of that.
use mathlib.Core.Path.{◌≡◌}
use mathlib.Core.Logic.{inl, inr}
use mathlib.Core.Bool.{true, false, Bool}
use mathlib.Core.Option.{some}
use mathlib.Core.List.{List, [], ◌∷◌, ◌++◌}
use native.Mathlib.Omega.{arith}
use codex_monitor.Common.Tests.{Bool-cases}
use codex_monitor.Common.Rows.{find_row, update_rows, find_row-append_some}

module _ {ℓ} {A : Type ℓ} (p : A → Bool) (P : A → Type 0) where
  pub record Finds (rs : List A) : Type ℓ where
    pub row : A
    pub found : find_row p rs ≡ some row
    pub such : P row

  pub Finds-append : (rs ys : List A) → Finds rs → Finds (rs ++ ys)
  Finds-append rs ys f = record {
    row = f.row;
    found = find_row-append_some p rs ys f.row f.found;
    such = f.such;
  }

  module _ (q : A → Bool) (f : A → A) (same : (a : A) → p (f a) ≡ p a)
      (keep : (a : A) → P a → P (f a)) where
    behind : (x : A) (rs : List A) → p x ≡ false → Finds rs → Finds (x ∷ rs)
    unfolding find_row
    behind x rs miss g = record {
      row = g.row;
      found = ground (arith, miss, g.found);
      such = g.such;
    }

    first : (x : A) (rs : List A) → p x ≡ true → P x → Finds (x ∷ rs)
    unfolding find_row
    first x rs hit h = record { row = x; found = ground (arith, hit); such = h }

    -- The found row may be among those that the update writes.
    pub Finds-update : (rs : List A) → Finds rs → Finds (update_rows q f rs)
    unfolding find_row update_rows
    Finds-update [] g = absurd (ground (arith, g.found))
    Finds-update (x ∷ rs) g = elim (Bool-cases (p x)) [
      | inl t ↦
          let e : x ≡ g.row = ground (arith, g.found) in
          let h : P x = rw e g.such in
          elim (Bool-cases (q x)) [
            | inl w ↦ rw w (first (f x) (update_rows q f rs) (ground (arith, same x, t)) (keep x h))
            | inr w ↦ rw w (first x (update_rows q f rs) t h)
          ]
      | inr t ↦
          let rest =
            Finds-update rs
              (record { row = g.row; found = ground (arith, g.found, t); such = g.such }) in
          elim (Bool-cases (q x)) [
            | inl w ↦ rw w (behind (f x) (update_rows q f rs) (ground (arith, same x, t)) rest)
            | inr w ↦ rw w (behind x (update_rows q f rs) t rest)
          ]
    ]
