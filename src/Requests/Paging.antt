-- ===== src/Requests/Paging.antt =====
-- The pages of a list whose numbers rise, and a client that follows their cursors.
use codex_monitor.Common.{
  ℕ, zero, suc, ◌≤◌, ◌<◌, ◌≡◌, refl, ap, ◌∙◌, String, Bool, true, false, Option, none, some, List,
  [], ◌∷◌, ◌++◌, ltb, Result, ok, err, ◌>>=◌, select_rows, length, take, arith, Bool-cases, inl,
  inr,
}
use codex_monitor.Requests.State.{Request, Store, Encoding}
use codex_monitor.Requests.Updates.{Reply, record_of}
use codex_monitor.Requests.Queries.{
  numbered, records, last_seq, Page, After, behind_seq, list_requests,
}

abbrev pub Rows : Type 0
Rows = List (ℕ × Request)

-- The numbers rise, from above the bound on.
abbrev pub IsRising : ℕ → Rows → Type 0
IsRising n [] = Unit
IsRising n (p ∷ ps) = (n < p.0) × IsRising p.0 ps

abbrev pub drop : ℕ → Rows → Rows
drop zero ps = ps
drop (suc n) [] = []
drop (suc n) (p ∷ ps) = drop n ps

pub numbered-IsRising : (n m : ℕ) (rs : List Request) → n < m → IsRising n (numbered m rs)
unfolding numbered
numbered-IsRising n m [] h = tt
numbered-IsRising n m (r ∷ rs) h = (h, numbered-IsRising m (suc m) rs (omega arith))

pub lower-IsRising : (n m : ℕ) (ps : Rows) → n ≤ m → IsRising m ps → IsRising n ps
lower-IsRising n m [] h r = tt
lower-IsRising n m (p ∷ ps) h r = (omega (arith, r.0, h), r.1)

-- A list that is already behind the cursor is left as it is.
pub select_all :
    (c n : ℕ) (ps : Rows) → c ≤ n → IsRising n ps → select_rows (λ p. ltb c p.0) ps ≡ ps
unfolding select_rows
select_all c n [] h r = refl
select_all c n (p ∷ ps) h r = ground (arith, r.0, select_all c p.0 ps (omega (arith, r.0, h)) r.1)

pub last_above :
    (n c : ℕ) (p : ℕ × Request) (ps : Rows)
    → IsRising n (p ∷ ps)
    → last_seq (p ∷ ps) ≡ some c
    → p.0 ≤ c
unfolding last_seq
last_above n c p [] r e = ground arith
last_above n c p (q ∷ ps) r e = omega (arith, r.1.0, last_above p.0 c q ps r.1 e)

pub take-IsRising : (k n : ℕ) (ps : Rows) → IsRising n ps → IsRising n (take k ps)
take-IsRising zero n ps r = tt
take-IsRising (suc k) n [] r = tt
take-IsRising (suc k) n (p ∷ ps) r = (r.0, take-IsRising k p.0 ps r.1)

-- Behind the last row of a page are the rows that follow it.
pub select_behind :
    (k n c : ℕ) (ps : Rows)
    → IsRising n ps
    → last_seq (take (suc k) ps) ≡ some c
    → select_rows (λ p. ltb c p.0) ps ≡ drop (suc k) ps
unfolding last_seq select_rows
select_behind k n c [] r e = cc
select_behind zero n c (p ∷ ps) r e =
    let same : p.0 ≡ c = ground arith in
    let rest = select_all c p.0 ps (omega (arith, same)) r.1 in ground (arith, same, rest)
select_behind (suc k) n c (p ∷ []) r e = let same : p.0 ≡ c = ground arith in ground (arith, same)
select_behind (suc k) n c (p ∷ q ∷ ps) r e =
    let above = last_above p.0 c q (take k ps) (take-IsRising (suc k) p.0 (q ∷ ps) r.1) e in
    let rest = select_behind k p.0 c (q ∷ ps) r.1 e in
    let low : ltb c p.0 ≡ false = ground (arith, above, r.1.0) in rw low rest

pub select-select :
    (p q : ℕ × Request → Bool) (ps : Rows)
    → ((a : ℕ × Request) → q a ≡ true → p a ≡ true)
    → select_rows q (select_rows p ps) ≡ select_rows q ps
unfolding select_rows
select-select p q [] within = refl
select-select p q (a ∷ ps) within = ground (arith, within a, select-select p q ps within)

pub select-IsRising :
    (p : ℕ × Request → Bool) (n : ℕ) (ps : Rows) → IsRising n ps → IsRising n (select_rows p ps)
unfolding select_rows
select-IsRising p n [] r = tt
select-IsRising p n (a ∷ ps) r = elim (Bool-cases (p a)) [
  | inl t ↦ rw t ((r.0, select-IsRising p a.0 ps r.1))
  | inr t ↦
      rw t (
        lower-IsRising n a.0 (select_rows p ps) (omega (arith, r.0)) (select-IsRising p a.0 ps r.1))
]

pub select-congr :
    (p q : ℕ × Request → Bool) (ps : Rows)
    → ((a : ℕ × Request) → p a ≡ q a)
    → select_rows p ps ≡ select_rows q ps
select-congr p q ps same = ap (λ f. select_rows f ps) (λ i a. same a i)

pub take-take : (k : ℕ) (ps : Rows) → take k (take (suc k) ps) ≡ take k ps
take-take zero ps = refl
take-take (suc k) [] = refl
take-take (suc k) (p ∷ ps) = ap (λ t. p ∷ t) (take-take k ps)

pub take-drop : (k : ℕ) (ps : Rows) → take k ps ++ drop k ps ≡ ps
take-drop zero ps = refl
take-drop (suc k) [] = refl
take-drop (suc k) (p ∷ ps) = ap (λ t. p ∷ t) (take-drop k ps)

-- A page is full where more rows follow.
pub full_page : (k : ℕ) (ps : Rows) → ltb k (length (take (suc k) ps)) ≡ ltb k (length ps)
full_page zero [] = refl
full_page zero (p ∷ ps) = ground arith
full_page (suc k) [] = refl
full_page (suc k) (p ∷ ps) = ground (arith, full_page k ps)

pub short_page : (k : ℕ) (ps : Rows) → ltb k (length ps) ≡ false → take k ps ≡ ps
short_page zero [] h = refl
short_page zero (p ∷ ps) h = ground (arith, h)
short_page (suc k) [] h = refl
short_page (suc k) (p ∷ ps) h = ap (λ t. p ∷ t) (short_page k ps (ground arith))

pub length-drop_le : (k : ℕ) (ps : Rows) → length (drop k ps) ≤ length ps
length-drop_le zero ps = omega arith
length-drop_le (suc k) [] = omega arith
length-drop_le (suc k) (p ∷ ps) = omega (arith, length-drop_le k ps)

pub length-drop : (k : ℕ) (ps : Rows) → 1 ≤ length ps → length (drop (suc k) ps) < length ps
length-drop k [] h = omega (arith, h)
length-drop k (p ∷ ps) h = omega (arith, length-drop_le k ps)

pub last-some :
    (k : ℕ) (ps : Rows) → 1 ≤ length ps → (c : ℕ) × (last_seq (take (suc k) ps) ≡ some c)
unfolding last_seq
last-some k [] h = absurd (omega (arith, h))
last-some zero (p ∷ ps) h = (p.0, refl)
last-some (suc k) (p ∷ []) h = (p.0, refl)
last-some (suc k) (p ∷ q ∷ ps) h = last-some k (q ∷ ps) (omega arith)

abbrev pub joined : Result (List Reply) → Result (List Reply) → Result (List Reply)
joined a b = do xs ← a; ys ← b; ok (xs ++ ys)

pub joined_empty : (b : Result (List Reply)) → b ≡ joined (ok []) b
joined_empty (ok ys) = refl
joined_empty (err c m) = refl

pub joined_behind :
    (r : Result Reply) (a b : Result (List Reply))
    → (r >>= λ x. joined a b >>= λ xs. ok (x ∷ xs)) ≡ joined (r >>= λ x. a >>= λ xs. ok (x ∷ xs)) b
joined_behind (err c m) a b = refl
joined_behind (ok x) (err c m) b = refl
joined_behind (ok x) (ok xs) (err c m) = refl
joined_behind (ok x) (ok xs) (ok ys) = refl

pub records-append :
    (enc : Encoding) (ps qs : Rows)
    → records enc (ps ++ qs) ≡ joined (records enc ps) (records enc qs)
unfolding records
records-append enc [] qs = joined_empty (records enc qs)
records-append enc (p ∷ ps) qs =
    ap (λ k. record_of enc p.1 false >>= λ x. k >>= λ xs. ok (x ∷ xs)) (records-append enc ps qs)
    ∙ joined_behind (record_of enc p.1 false) (records enc ps) (records enc qs)

-- The client: it asks for the rows behind each page's cursor, until a page has none. The number
-- bounds its calls.
abbrev pub read_on : (ℕ → Result (List Reply)) → Page → Result (List Reply)
read_on next page = elim page.next [ none ↦ ok page.rows | some c ↦ joined (ok page.rows) (next c) ]

unfoldable pub read_all :
    Encoding → String → Option String → ℕ → Store → ℕ → After → Result (List Reply)
read_all enc conversation source limit db zero after = err 0 "too many pages"
read_all enc conversation source limit db (suc calls) after =
    list_requests enc conversation source limit after db
    >>= read_on (λ c. read_all enc conversation source limit db calls (behind_seq c))
