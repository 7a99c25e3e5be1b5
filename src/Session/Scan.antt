-- ===== src/Session/Scan.antt =====
-- What a scan of the owner's lists costs, changes and proves.
use codex_monitor.Common.{
  ℕ, zero, suc, ◌+◌, ◌≤◌, sym, subst, inl, inr, String, Option, none, some, List, [], ◌∷◌, arith,
  Bool-cases, length, All,
}
use codex_monitor.Json.{Value}
use codex_monitor.Session.Rpc.{
  Request, adds_message, Answer, answered, rejected, failed, Remote, Trace, Attempt, done, raises,
  Session, continue, pure, ◌>>=◌, ◌>>◌,
}
use codex_monitor.Session.Target.{Kind, app_server, shared_local, check_target}
use codex_monitor.Session.Inspect.{
  ListKind, queue, turns, page, Found, missing, matching, broken, page_found, next_cursor, hashable,
  seen_cursor, check_cursor, Scan, located, exhausted, read_page, read_answer, scan, Inspection,
  scanned_turns, scanned_queue, inspect, submission_of, reconcile,
}
use codex_monitor.Session.Handoff.{probe, check_target_calls}

-- The pages that may still be read after a scan.
abbrev pub rest_of : Attempt Scan → ℕ
rest_of (done (exhausted left)) = left
rest_of _ = 0

-- A property of the calls and of the pages that are left, which each page keeps.
pub record Counts (P : ℕ → Trace → Type 0) (kind : ListKind) (thread : String) : Type 0 where
  pub reading :
      (left : ℕ) (cursor : Option Value) (t : Trace)
      → P (suc left) t
      → P left (page kind thread cursor ∷ t)
  pub ending : (left : ℕ) (t : Trace) → P left t → P zero t

module _ (P : ℕ → Trace → Type 0) (kind : ListKind) (thread client : String) (left : ℕ)
    (seen : List Value) (next : Value → Session Scan) (counts : Counts P kind thread) where
  Ends : Attempt Scan × Trace → Type 0
  Ends r = P (rest_of r.0) r.1

  cursor_calls :
      (c : Value) (t : Trace)
      → P left t
      → P (rest_of (next c t).0) (next c t).1
      → P (rest_of ((check_cursor c seen >> next c) t).0) ((check_cursor c seen >> next c) t).1
  cursor_calls c t p q = elim (Bool-cases (hashable c)) [
    | inr h ↦ rw h (counts.ending left t p)
    | inl h ↦ elim (Bool-cases (seen_cursor c seen)) [
      | inl s ↦ rw h (rw s (counts.ending left t p))
      | inr s ↦ rw h (rw s q)
    ]
  ]

  read_page_calls :
      (f : Found) (o : Option Value) (t : Trace)
      → P left t
      → ((c : Value) → P (rest_of (next c t).0) (next c t).1)
      → P (rest_of (read_page kind left seen next f o t).0) (read_page kind left seen next f o t).1
  read_page_calls (matching id) o t p q = counts.ending left t p
  read_page_calls (broken m) o t p q = counts.ending left t p
  read_page_calls missing none t p q = p
  read_page_calls missing (some c) t p q = cursor_calls c t p (q c)

  read_answer_calls :
      (a : Answer) (t : Trace)
      → P left t
      → ((c : Value) → P (rest_of (next c t).0) (next c t).1)
      → P
          (rest_of (read_answer kind client left seen next a t).0)
          (read_answer kind client left seen next a t).1
  read_answer_calls (rejected e) t p q = counts.ending left t p
  read_answer_calls (failed f m) t p q = counts.ending left t p
  read_answer_calls (answered v) t p q = read_page_calls (page_found client v) (next_cursor v) t p q

module _ (P : ℕ → Trace → Type 0) (remote : Remote) (kind : ListKind) (thread client : String)
    (counts : Counts P kind thread) where
  scan_calls :
      (left : ℕ) (cursor : Option Value) (seen : List Value) (t : Trace)
      → P left t
      → P
          (rest_of (scan remote kind thread client left cursor seen t).0)
          (scan remote kind thread client left cursor seen t).1
  unfolding scan
  scan_calls zero cursor seen t p = p
  scan_calls (suc left) cursor seen t p =
      let q = counts.reading left cursor t p in
      let rest =
        λ (c : Value). scan_calls left (some c) (c ∷ seen) (page kind thread cursor ∷ t) q in
      elim (Bool-cases (remote.late t)) [
        | inl late ↦ rw late (counts.ending (suc left) t p)
        | inr early ↦ rw early (
            read_answer_calls P kind thread client left seen
              (λ c. scan remote kind thread client left (some c) (c ∷ seen)) counts
              (remote.call t (page kind thread cursor)) (page kind thread cursor ∷ t) q rest)
      ]

-- Both lists, one after the other, on one budget of pages.
module _ (P : ℕ → Trace → Type 0) (remote : Remote) (thread client : String)
    (on_queue : Counts P queue thread) (on_turns : Counts P turns thread) where
  turns_calls :
      (o : Attempt Scan) (t : Trace) → P (rest_of o) t → P zero (continue o scanned_turns t).1
  turns_calls (done (located kind id)) t p = p
  turns_calls (done (exhausted left)) t p = on_turns.ending left t p
  turns_calls (raises f m) t p = p

  queue_calls :
      (o : Attempt Scan) (t : Trace)
      → P (rest_of o) t
      → P zero (continue o (scanned_queue remote thread client) t).1
  queue_calls (done (located kind id)) t p = p
  queue_calls (done (exhausted left)) t p =
      turns_calls (scan remote turns thread client left none [] t).0
        (scan remote turns thread client left none [] t).1
        (scan_calls P remote turns thread client on_turns left none [] t p)
  queue_calls (raises f m) t p = p

  lists_calls :
      (max_pages : ℕ) (o : Attempt (Unit {0})) (t : Trace)
      → P max_pages t
      → P zero
          (continue o
            (λ x.
              scan remote queue thread client max_pages none []
              >>= scanned_queue remote thread client)
            t).1
  lists_calls max_pages (done u) t p =
      queue_calls (scan remote queue thread client max_pages none [] t).0
        (scan remote queue thread client max_pages none [] t).1
        (scan_calls P remote queue thread client on_queue max_pages none [] t p)
  lists_calls max_pages (raises f m) t p = on_queue.ending max_pages t p

  inspect_calls :
      (kind : Kind) (max_pages : ℕ) (t : Trace)
      → P max_pages (probe kind thread ∷ t)
      → P zero (inspect remote kind max_pages thread client t).1
  unfolding inspect
  inspect_calls kind max_pages t p =
      lists_calls max_pages (check_target remote kind thread t).0
        (check_target remote kind thread t).1
        (subst (P max_pages) (sym (check_target_calls remote kind thread t)) p)

-- An inspection ends, whatever the owner answers and the clock says: it makes one call of the probe
-- and reads at most `max_pages` pages, of both lists together.
pub inspect_bound :
    (remote : Remote) (kind : Kind) (max_pages : ℕ) (thread client : String) (t : Trace)
    → length (inspect remote kind max_pages thread client t).1 ≤ length t + 1 + max_pages
inspect_bound remote kind max_pages thread client t = omega (
  arith,
  inspect_calls Within remote thread client (counts queue) (counts turns) kind max_pages t
      (omega arith),
)
  where
    Within : ℕ → Trace → Type 0
    Within left u = length u + left ≤ length t + 1 + max_pages

    counts : (list : ListKind) → Counts Within list thread
    counts list = record {
      reading = λ left cursor u h. omega arith;
      ending = λ left u h. omega arith;
    }

-- A call that changes nothing at the owner.
abbrev pub IsRead : Request → Type 0
IsRead (adds_message thread client body) = ⊥
IsRead _ = Unit

page-IsRead :
    (kind : ListKind) (thread : String) (cursor : Option Value) → IsRead (page kind thread cursor)
page-IsRead queue thread cursor = tt
page-IsRead turns thread cursor = tt

probe-IsRead : (kind : Kind) (thread : String) → IsRead (probe kind thread)
probe-IsRead app_server thread = tt
probe-IsRead shared_local thread = tt

-- A reconciliation only reads: it submits no message, whatever the owner answers.
pub reconcile-IsRead :
    (remote : Remote) (kind : Kind) (max_pages : ℕ) (thread client : String)
    → All IsRead (reconcile remote kind max_pages thread client []).1
unfolding reconcile
reconcile-IsRead remote kind max_pages thread client =
    go (inspect remote kind max_pages thread client []).0
      (inspect remote kind max_pages thread client []).1
      (inspect_calls (λ n u. All IsRead u) remote thread client (counts queue) (counts turns) kind
        max_pages [] (probe-IsRead kind thread, tt))
  where
    counts : (list : ListKind) → Counts (λ n u. All IsRead u) list thread
    counts list = record {
      reading = λ left cursor u h. (page-IsRead list thread cursor, h);
      ending = λ left u h. h;
    }

    go :
        (o : Attempt Inspection) (u : Trace)
        → All IsRead u
        → All IsRead (continue o (λ i. pure (submission_of i)) u).1
    go (done i) u h = h
    go (raises f m) u h = h
