-- ===== src/Common/Keys.antt =====
-- Key columns without repetition, and what follows for the rows that share a key.
use mathlib.Core.Path.{◌≡◌, refl, ap}
use mathlib.Core.Logic.{inl, inr}
use mathlib.Core.Bool.{Bool, true, false}
use mathlib.Core.List.{List, [], ◌∷◌, ◌++◌, map}
use Prim.Native.String.{String}
use native.Mathlib.Omega.{arith}
use text.Mathlib.Text.{◌==◌}
use text.Mathlib.TextEquality.{eq_iff}
use codex_monitor.Common.Tests.{Bool-cases}
use codex_monitor.Common.Rows.{All, All-append, any_row, count_rows, update_rows, select_rows}

abbrev pub Absent : String → List String → Type 0
Absent k = All (λ j. (j == k) ≡ false)

abbrev pub Distinct : List String → Type 0
Distinct [] = Unit
Distinct (k ∷ ks) = All (λ j. (k == j) ≡ false) ks × Distinct ks

abbrev pub by_key {ℓ} : {A : Type ℓ} → (A → String) → String → A → Bool
by_key key k a = key a == k

Distinct-append :
    (ks : List String) (k : String) → Distinct ks → Absent k ks → Distinct (ks ++ k ∷ [])
Distinct-append [] k d f = (tt, tt)
Distinct-append (j ∷ ks) k d f =
    (All-append (λ i. (j == i) ≡ false) ks k d.0 f.0, Distinct-append ks k d.1 f.1)

module _ {ℓ} {A : Type ℓ} (key : A → String) where
  any_row-Absent :
      (k : String) (rs : List A) → any_row (by_key key k) rs ≡ false → Absent k (map key rs)
  unfolding any_row
  any_row-Absent k [] h = tt
  any_row-Absent k (r ∷ rs) h = ground (arith, any_row-Absent k rs)

  map-append_one : (rs : List A) (x : A) → map key (rs ++ x ∷ []) ≡ map key rs ++ key x ∷ []
  map-append_one [] x = refl
  map-append_one (r ∷ rs) x = ap (λ t. key r ∷ t) (map-append_one rs x)

  -- A row with a key that no row has keeps the column distinct.
  pub Distinct-insert :
      (rs : List A) (x : A)
      → Distinct (map key rs)
      → any_row (by_key key (key x)) rs ≡ false
      → Distinct (map key (rs ++ x ∷ []))
  Distinct-insert rs x d h =
      rw (map-append_one rs x)
        (Distinct-append (map key rs) (key x) d (any_row-Absent (key x) rs h))

  -- An update that leaves the key alone leaves the column as it was.
  pub map-update_rows :
      (p : A → Bool) (f : A → A)
      → ((a : A) → key (f a) ≡ key a)
      → (rs : List A) → map key (update_rows p f rs) ≡ map key rs
  unfolding update_rows
  map-update_rows p f same [] = refl
  map-update_rows p f same (r ∷ rs) = ground (arith, same r, map-update_rows p f same rs)

  abbrev pub SameRow : A → List A → Type ℓ
  SameRow r = All (λ a. by_key key (key r) a ≡ true → a ≡ r)

  SameRow-of_Absent :
      (x : A) (rs : List A) → All (λ j. (key x == j) ≡ false) (map key rs) → SameRow x rs
  SameRow-of_Absent x [] h = tt
  SameRow-of_Absent x (r ∷ rs) h = (
    λ e. absurd (ground (arith, eq_iff (key r) (key x), eq_iff (key x) (key r), e, h.0)),
    SameRow-of_Absent x rs h.1,
  )

  SameRow-cons :
      (x : A) (rs all : List A)
      → All (λ j. (key x == j) ≡ false) (map key rs)
      → All (λ r. SameRow r all) rs
      → All (λ r. SameRow r (x ∷ all)) rs
  SameRow-cons x [] all h s = tt
  SameRow-cons x (r ∷ rs) all h s =
      ((λ e. absurd (ground (arith, e, h.0)), s.0), SameRow-cons x rs all h.1 s.1)

  -- In a distinct column, rows with one key are one row.
  pub Distinct-SameRow : (rs : List A) → Distinct (map key rs) → All (λ r. SameRow r rs) rs
  Distinct-SameRow [] d = tt
  Distinct-SameRow (x ∷ rs) d =
      ((λ _. refl, SameRow-of_Absent x rs d.0), SameRow-cons x rs rs d.0 (Distinct-SameRow rs d.1))

module _ {ℓ} {A : Type ℓ} where
  pub All-× {κ μ} :
      (P : A → Type κ) (Q : A → Type μ) (rs : List A)
      → All P rs
      → All Q rs
      → All (λ a. P a × Q a) rs
  All-× P Q [] h k = tt
  All-× P Q (r ∷ rs) h k = ((h.0, k.0), All-× P Q rs h.1 k.1)

  pub All-select_rows {κ} :
      (P : A → Type κ) (p : A → Bool) (rs : List A)
      → All P rs
      → All (λ a. P a × (p a ≡ true)) (select_rows p rs)
  unfolding select_rows
  All-select_rows P p [] h = tt
  All-select_rows P p (r ∷ rs) h =
      let rest = All-select_rows P p rs h.1 in
      elim (Bool-cases (p r)) [ inl t ↦ rw t ((h.0, t), rest) | inr t ↦ rw t rest ]

  pub any_row_of_All :
      (p : A → Bool) (rs : List A) → All (λ a. p a ≡ false) rs → any_row p rs ≡ false
  unfolding any_row
  any_row_of_All p [] h = refl
  any_row_of_All p (r ∷ rs) h = ground (arith, any_row_of_All p rs h.1)

  pub All-of_any_row :
      (p : A → Bool) (rs : List A) → any_row p rs ≡ false → All (λ a. p a ≡ false) rs
  unfolding any_row
  All-of_any_row p [] h = tt
  All-of_any_row p (r ∷ rs) h = ground (arith, All-of_any_row p rs)

  pub any_row-append :
      (p : A → Bool) (rs : List A) (x : A) → any_row p rs ≡ true → any_row p (rs ++ x ∷ []) ≡ true
  unfolding any_row
  any_row-append p [] x h = cc
  any_row-append p (r ∷ rs) x h = ground (arith, any_row-append p rs x)

  pub any_row-update_rows :
      (q p : A → Bool) (f : A → A)
      → ((a : A) → q (f a) ≡ q a)
      → (rs : List A) → any_row q (update_rows p f rs) ≡ any_row q rs
  unfolding any_row update_rows
  any_row-update_rows q p f same [] = refl
  any_row-update_rows q p f same (r ∷ rs) =
      ground (arith, same r, any_row-update_rows q p f same rs)

  -- Two updates of the same rows are one.
  pub update_rows-update_rows :
      (p : A → Bool) (f g : A → A)
      → ((a : A) → p (f a) ≡ p a)
      → (rs : List A) → update_rows p g (update_rows p f rs) ≡ update_rows p (λ a. g (f a)) rs
  unfolding update_rows
  update_rows-update_rows p f g same [] = refl
  update_rows-update_rows p f g same (r ∷ rs) =
      ground (arith, same r, update_rows-update_rows p f g same rs)

  pub count_rows-congr :
      (q p : A → Bool) (f : A → A)
      → ((a : A) → q (f a) ≡ q a)
      → (rs : List A) → count_rows q (update_rows p f rs) ≡ count_rows q rs
  unfolding count_rows update_rows
  count_rows-congr q p f same [] = refl
  count_rows-congr q p f same (r ∷ rs) = ground (arith, same r, count_rows-congr q p f same rs)
