-- ===== src/Common/Found.antt =====
-- Rows that a query finds, and the parts of a table that keep its key column distinct.
use Prim.Native.Nat.{ℕ, zero, suc, ◌≤◌}
use mathlib.Core.Path.{refl, ◌≡◌}
use mathlib.Core.Logic.{inl, inr}
use mathlib.Core.Bool.{true, false, Bool}
use mathlib.Core.Option.{some}
use mathlib.Core.List.{List, [], ◌∷◌, map}
use Prim.Native.String.{String}
use native.Mathlib.Omega.{arith}
use codex_monitor.Common.Tests.{Bool-cases}
use codex_monitor.Common.Rows.{All, any_row, count_rows, find_row, update_rows, select_rows, take}
use codex_monitor.Common.Keys.{Distinct}

module _ {ℓ} {A : Type ℓ} where
  -- What one query finds, another one with the row has, too.
  pub any_row-find_row :
      (p q : A → Bool) (rs : List A) {r : A}
      → find_row p rs ≡ some r
      → q r ≡ true
      → any_row q rs ≡ true
  unfolding find_row any_row
  any_row-find_row p q [] h e = cc
  any_row-find_row p q (x ∷ rs) {r} h e = elim (Bool-cases (p x)) [
    | inl t ↦ let same : x ≡ r = ground arith in rw same (ground arith)
    | inr t ↦ ground (arith, any_row-find_row p q rs {r = r})
  ]

  pub find_row_unique :
      (q : A → Bool) (rs : List A) (r : A)
      → All (λ a. q a ≡ true → a ≡ r) rs
      → any_row q rs ≡ true
      → find_row q rs ≡ some r
  unfolding find_row any_row
  find_row_unique q [] r s h = cc
  find_row_unique q (x ∷ rs) r s h = elim (Bool-cases (q x)) [
    | inl t ↦ let same : x ≡ r = s.0 t in ground (arith, same)
    | inr t ↦ ground (arith, find_row_unique q rs r s.1)
  ]

  -- An update of other rows changes nothing of what a query finds.
  pub find_row-update_other :
      (q p : A → Bool) (f : A → A)
      → ((a : A) → q (f a) ≡ q a)
      → ((a : A) → q a ≡ true → p a ≡ false)
      → (rs : List A) → find_row q (update_rows p f rs) ≡ find_row q rs
  unfolding find_row update_rows
  find_row-update_other q p f same apart [] = refl
  find_row-update_other q p f same apart (r ∷ rs) =
      ground (arith, same r, apart r, find_row-update_other q p f same apart rs)

  pub any_row-count_rows : (p : A → Bool) (rs : List A) → any_row p rs ≡ true → 1 ≤ count_rows p rs
  unfolding any_row count_rows
  any_row-count_rows p [] h = cc
  any_row-count_rows p (r ∷ rs) h = ground (arith, any_row-count_rows p rs)

  pub All-take {κ} : (P : A → Type κ) (n : ℕ) (rs : List A) → All P rs → All P (take n rs)
  All-take P zero rs h = tt
  All-take P (suc n) [] h = tt
  All-take P (suc n) (r ∷ rs) h = (h.0, All-take P n rs h.1)

module _ {ℓ} {A : Type ℓ} (key : A → String) where
  map-take :
      (P : String → Type 0) (n : ℕ) (rs : List A) → All P (map key rs) → All P (map key (take n rs))
  map-take P zero rs h = tt
  map-take P (suc n) [] h = tt
  map-take P (suc n) (r ∷ rs) h = (h.0, map-take P n rs h.1)

  pub Distinct-take : (n : ℕ) (rs : List A) → Distinct (map key rs) → Distinct (map key (take n rs))
  Distinct-take zero rs d = tt
  Distinct-take (suc n) [] d = tt
  Distinct-take (suc n) (r ∷ rs) d = (map-take _ n rs d.0, Distinct-take n rs d.1)

  map-select_rows :
      (P : String → Type 0) (p : A → Bool) (rs : List A)
      → All P (map key rs)
      → All P (map key (select_rows p rs))
  unfolding select_rows
  map-select_rows P p [] h = tt
  map-select_rows P p (r ∷ rs) h = elim (Bool-cases (p r)) [
    | inl t ↦ rw t (h.0, map-select_rows P p rs h.1)
    | inr t ↦ rw t (map-select_rows P p rs h.1)
  ]

  pub Distinct-select_rows :
      (p : A → Bool) (rs : List A) → Distinct (map key rs) → Distinct (map key (select_rows p rs))
  unfolding select_rows
  Distinct-select_rows p [] d = tt
  Distinct-select_rows p (r ∷ rs) d = elim (Bool-cases (p r)) [
    | inl t ↦ rw t (map-select_rows _ p rs d.0, Distinct-select_rows p rs d.1)
    | inr t ↦ rw t (Distinct-select_rows p rs d.1)
  ]
