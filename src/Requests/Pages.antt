-- ===== src/Requests/Pages.antt =====
-- A client that follows the cursors of `list_requests` reads every request of the list once.
use codex_monitor.Common.{
  ℕ, zero, suc, ◌≤◌, ◌<◌, ◌≡◌, refl, sym, ap, ◌∙◌, String, Bool, true, false, ◌&&◌, Option, none,
  some, List, [], ◌∷◌, ltb, leb, if◌then◌else◌, Result, ok, err, ◌>>=◌, select_rows, length, take,
  arith, Bool-cases, inl, inr,
}
use codex_monitor.Json.{is_name}
use codex_monitor.Requests.State.{Request, Store, Encoding}
use codex_monitor.Requests.Updates.{Reply, record_of}
use codex_monitor.Requests.Queries.{
  optional_identifier, numbered, listed_in, records, last_seq, Page, page_of, from_start,
  behind_seq, list_requests,
}
use codex_monitor.Requests.Paging.{
  Rows, IsRising, drop, numbered-IsRising, select-IsRising, last_above, take-IsRising,
  select_behind, select_all, select-select, take-take, take-drop, full_page, short_page,
  length-drop, last-some, joined, records-append, read_on, read_all,
}

select-and :
    (f g : ℕ × Request → Bool) (ps : Rows)
    → select_rows (λ p. f p && g p) ps ≡ select_rows g (select_rows f ps)
unfolding select_rows
select-and f g [] = refl
select-and f g (p ∷ ps) = ground (arith, select-and f g ps)

select-above : (c n : ℕ) (ps : Rows) → IsRising n ps → IsRising c (select_rows (λ p. ltb c p.0) ps)
unfolding select_rows
select-above c n [] r = tt
select-above c n (p ∷ ps) r = elim (Bool-cases (ltb c p.0)) [
  | inl t ↦ rw t ((ground (arith, t), select-IsRising (λ q. ltb c q.0) p.0 ps r.1))
  | inr t ↦ rw t (select-above c p.0 ps r.1)
]

last-above_cursor :
    (c c' k : ℕ) (ps : Rows) → IsRising c ps → last_seq (take (suc k) ps) ≡ some c' → c ≤ c'
unfolding last_seq
last-above_cursor c c' k [] r e = cc
last-above_cursor c c' k (p ∷ ps) r e =
    omega (arith, r.0, last_above c c' p (take k ps) (take-IsRising (suc k) c (p ∷ ps) r) e)

end_page :
    (r : Result (List Reply)) (f : ℕ → Result (List Reply))
    → ((r >>= λ rs. ok (record { rows = rs; next = none })) >>= read_on f) ≡ r
end_page (ok rs) f = refl
end_page (err c m) f = refl

next_page :
    (r : Result (List Reply)) (f : ℕ → Result (List Reply)) (c : ℕ)
    → ((r >>= λ rs. ok (record { rows = rs; next = some c })) >>= read_on f) ≡ joined r (f c)
next_page (ok rs) f c = refl
next_page (err m n) f c = refl

module _ (enc : Encoding) (conversation : String) (source : Option String) (k : ℕ) (db : Store)
    (named : is_name conversation ≡ true) (scoped : optional_identifier source ≡ ok tt)
    (small : k < 100) where
  abbrev all_rows : Rows
  all_rows = select_rows (λ p. listed_in conversation source p.1) (numbered 1 db.requests)

  abbrev rows_behind : ℕ → Rows
  rows_behind c = select_rows (λ p. ltb c p.0) all_rows

  all_rows-IsRising : IsRising 0 all_rows
  all_rows-IsRising =
      select-IsRising (λ p. listed_in conversation source p.1) 0 (numbered 1 db.requests)
        (numbered-IsRising 0 1 db.requests (omega arith))

  abbrev page_at : Rows → Result Page
  page_at xs = records enc (take (suc k) xs) >>= λ rs. ok (record {
    rows = rs;
    next = if ltb (suc k) (length xs) then last_seq (take (suc k) xs) else none;
  })

  page-page_at : (xs : Rows) → page_of enc (suc k) (take (suc (suc k)) xs) ≡ page_at xs
  page-page_at xs = λ i. records enc (take-take (suc k) xs i) >>= λ rs. ok (record {
    rows = rs;
    next = if full_page (suc k) xs i then last_seq (take-take (suc k) xs i) else none;
  })

  list-page_at :
      (c : ℕ)
      → list_requests enc conversation source (suc k) (behind_seq c) db ≡ page_at (rows_behind c)
  unfolding list_requests
  list-page_at c =
      let small : (leb 1 (suc k) && leb (suc k) 100) ≡ true = ground (arith, small) in
      let split =
        select-and (λ p. listed_in conversation source p.1) (λ p. ltb c p.0)
          (numbered 1 db.requests) in
      rw named (rw scoped (rw small (rw split (page-page_at (rows_behind c)))))

  rows_behind_next :
      (c c' : ℕ)
      → last_seq (take (suc k) (rows_behind c)) ≡ some c'
      → rows_behind c' ≡ drop (suc k) (rows_behind c)
  rows_behind_next c c' e =
      let rising = select-above c 0 all_rows all_rows-IsRising in
      let above = last-above_cursor c c' k (rows_behind c) rising e in
      sym (
        select-select (λ p. ltb c p.0) (λ p. ltb c' p.0) all_rows (λ a h. ground (arith, above, h)))
      ∙ select_behind k c c' (rows_behind c) rising e

  read_behind :
      (calls c : ℕ)
      → length (rows_behind c) < calls
      → read_all enc conversation source (suc k) db calls (behind_seq c)
        ≡ records enc (rows_behind c)
  unfolding read_all
  read_behind zero c h = absurd (omega (arith, h))
  read_behind (suc calls) c h =
      let next = λ (c' : ℕ). read_all enc conversation source (suc k) db calls (behind_seq c') in
      ap (λ p. p >>= read_on next) (list-page_at c)
      ∙ (elim (Bool-cases (ltb (suc k) (length (rows_behind c)))) [
        | inr short ↦ rw short (
            end_page (records enc (take (suc k) (rows_behind c))) next
            ∙ ap (records enc) (short_page (suc k) (rows_behind c) short))
        | inl more ↦
            let (c', e) = last-some k (rows_behind c) (ground (arith, more)) in
            let rest = rows_behind_next c c' e in
            let fewer = length-drop k (rows_behind c) (ground (arith, more)) in
            let tail = read_behind calls c' (rw rest (omega (arith, fewer, h))) in
            rw more (
              rw e (
                next_page (records enc (take (suc k) (rows_behind c))) next c'
                ∙ ap (joined (records enc (take (suc k) (rows_behind c))))
                    (tail ∙ ap (records enc) rest)
                ∙ sym (
                    records-append enc (take (suc k) (rows_behind c))
                      (drop (suc k) (rows_behind c)))
                ∙ ap (records enc) (take-drop (suc k) (rows_behind c))))
      ])

length-select_le : (p : ℕ × Request → Bool) (ps : Rows) → length (select_rows p ps) ≤ length ps
unfolding select_rows
length-select_le p [] = omega arith
length-select_le p (a ∷ ps) = elim (Bool-cases (p a)) [
  | inl t ↦ rw t (omega (arith, length-select_le p ps))
  | inr t ↦ rw t (omega (arith, length-select_le p ps))
]

length-numbered : (n : ℕ) (rs : List Request) → length (numbered n rs) ≡ length rs
unfolding numbered
length-numbered n [] = refl
length-numbered n (r ∷ rs) = ap suc (length-numbered (suc n) rs)

-- The answers for requests, in their order.
unfoldable pub replies_of : Encoding → List Request → Result (List Reply)
replies_of enc [] = ok []
replies_of enc (r ∷ rs) = do
  reply ← record_of enc r false
  replies ← replies_of enc rs
  ok (reply ∷ replies)

records-select :
    (enc : Encoding) (p : Request → Bool) (n : ℕ) (rs : List Request)
    → records enc (select_rows (λ a. p a.1) (numbered n rs)) ≡ replies_of enc (select_rows p rs)
unfolding records numbered select_rows replies_of
records-select enc p n [] = refl
records-select enc p n (r ∷ rs) = elim (Bool-cases (p r)) [
  | inl t ↦ rw t (
      ap (λ k. record_of enc r false >>= λ x. k >>= λ xs. ok (x ∷ xs))
        (records-select enc p (suc n) rs))
  | inr t ↦ rw t (records-select enc p (suc n) rs)
]

read_all-from_start :
    (enc : Encoding) (conversation : String) (source : Option String) (limit : ℕ) (db : Store)
    (calls : ℕ)
    → read_all enc conversation source limit db (suc calls) from_start
      ≡ read_all enc conversation source limit db (suc calls) (behind_seq 0)
unfolding read_all list_requests
read_all-from_start enc conversation source limit db calls = refl

-- Reading `list_requests` page by page, each time behind the cursor of the last page, gives the
-- requests of the conversation (and of the source, if one is named) in the order of their creation,
-- each of them once, however long the pages are: the same answers as reading the whole table, an
-- error for a payload that cannot be decoded included. More calls than the table has rows suffice.
pub read_all-replies_of :
    (enc : Encoding) (conversation : String) (source : Option String) (limit : ℕ) (db : Store)
    (calls : ℕ)
    → is_name conversation ≡ true
    → optional_identifier source ≡ ok tt
    → 1 ≤ limit
    → limit ≤ 100
    → length db.requests < calls
    → read_all enc conversation source limit db calls from_start
      ≡ replies_of enc (select_rows (listed_in conversation source) db.requests)
read_all-replies_of enc conversation source zero db calls named scoped low high h =
    absurd (omega (arith, low))
read_all-replies_of enc conversation source (suc k) db zero named scoped low high h =
    absurd (omega (arith, h))
read_all-replies_of enc conversation source (suc k) db (suc calls) named scoped low high h =
    from_zero
    ∙ (read_behind enc conversation source k db named scoped (omega (arith, high)) (suc calls) 0
          enough
        ∙ (ap (records enc) whole
            ∙ records-select enc (listed_in conversation source) 1 db.requests))
  where
    whole :
        rows_behind enc conversation source k db named scoped (omega (arith, high)) 0
        ≡ all_rows enc conversation source k db named scoped (omega (arith, high))
    whole =
        select_all 0 0 _ (omega arith)
          (all_rows-IsRising enc conversation source k db named scoped (omega (arith, high)))

    enough :
        length (rows_behind enc conversation source k db named scoped (omega (arith, high)) 0)
        < suc calls
    enough =
        let fewer =
          length-select_le (λ p. listed_in conversation source p.1) (numbered 1 db.requests) in
        let same = length-numbered 1 db.requests in rw whole (omega (arith, fewer, same, h))

    from_zero :
        read_all enc conversation source (suc k) db (suc calls) from_start
        ≡ read_all enc conversation source (suc k) db (suc calls) (behind_seq 0)
    from_zero = read_all-from_start enc conversation source (suc k) db calls
