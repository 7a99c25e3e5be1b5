-- ===== src/Health/Bounds.antt =====
-- What a probe costs.
use codex_monitor.Common.{
  ℕ, zero, suc, ◌+◌, ◌≤◌, String, Bool, true, false, ◌||◌, Option, none, some, List, [], ◌∷◌, ltb,
  ◌==◌, length, member, arith, Bool-cases, inl, inr,
}
use codex_monitor.Json.{Value, text, array, entry, is_text}
use codex_monitor.Session.Inspect.{falsy}
use codex_monitor.Health.Words.{Outside, supported_endpoint, auth_error, unsupported}
use codex_monitor.Health.Answers.{account_unsupported, account_unavailable, account_observation}
use codex_monitor.Health.Peer.{
  initialize, initialized, reads_account, lists_loaded, reads_thread, Answer, answered, rejected,
  broken, crashed, Trace, Connected, connected, refused, not_connected, Peer, Observation, base,
}
use codex_monitor.Health.Pages.{
  Paged, rows, page_rejected, page_broken, page_crashed, odd_cursor, next_page, page_data,
  page_answer, with_items, max_thread_ids, read_pages, loaded_ids, any_id, sortable,
}
use codex_monitor.Health.Probe.{
  read_status, judged, thread_rejected, after_thread, after_loaded, after_ids, after_pages,
  max_pages, list_threads, account_rejected, needs_auth, after_account, after_notice, after_start,
  after_connect, probe_owner, observed_status,
}

module _ (next : List Value → String → Trace → Paged × Trace) (left : ℕ)
    (few : (ws : List Value) (c : String) (u : Trace)
      → length (next ws c u).1 ≤ length u + left) where
  odd_bound :
      (vs : List Value) (b : Bool) (u : Trace) → length (odd_cursor vs b u).1 ≤ length u + left
  odd_bound vs true u = omega arith
  odd_bound vs false u = omega arith

  next_page_bound :
      (vs : List Value) (seen : List String) (o : Option Value) (u : Trace)
      → length (next_page vs seen (next vs) o u).1 ≤ length u + left
  next_page_bound vs seen none u = omega arith
  next_page_bound vs seen (some (text c)) u = elim (Bool-cases (c == "")) [
    | inl h ↦ rw h (omega arith)
    | inr h ↦ elim (Bool-cases (member c seen)) [
      | inl k ↦ rw h (rw k (omega arith))
      | inr k ↦ rw h (rw k (few vs c u))
    ]
  ]
  next_page_bound vs seen (some v) u = odd_bound vs (falsy v) u

  page_data_bound :
      (vs : List Value) (seen : List String) (d c : Option Value) (u : Trace)
      → length (page_data vs seen next d c u).1 ≤ length u + left
  page_data_bound vs seen (some (array xs)) c u =
      elim (Bool-cases (ltb max_thread_ids (length (with_items vs xs)))) [
        | inl h ↦ rw h (omega arith)
        | inr h ↦ rw h (next_page_bound (with_items vs xs) seen c u)
      ]
  page_data_bound vs seen none c u = omega arith
  page_data_bound vs seen (some _) c u = omega arith

  page_answer_bound :
      (vs : List Value) (seen : List String) (a : Answer) (u : Trace)
      → length (page_answer vs seen next a u).1 ≤ length u + left
  page_answer_bound vs seen (answered v) u =
      page_data_bound vs seen (entry "data" v) (entry "nextCursor" v) u
  page_answer_bound vs seen (rejected e) u = omega arith
  page_answer_bound vs seen (broken auth) u = omega arith
  page_answer_bound vs seen crashed u = omega arith

read_pages_bound :
    (owner : Peer) (left : ℕ) (cursor : Option String) (seen : List String) (vs : List Value)
    (t : Trace)
    → length (read_pages owner left cursor seen vs t).1 ≤ length t + left
unfolding read_pages
read_pages_bound owner zero cursor seen vs t = omega arith
read_pages_bound owner (suc left) cursor seen vs t =
    let more =
      page_answer_bound (λ ws c. read_pages owner left (some c) (c ∷ seen) ws) left
        (λ ws c u. read_pages_bound owner left (some c) (c ∷ seen) ws u) vs seen
        (owner.call t (lists_loaded cursor)) (lists_loaded cursor ∷ t) in
    omega (arith, more)

module _ (o : Outside) (owner : Peer) (thread : String) where
  judged_bound :
      (r : Observation) (s : Option String) (t : Trace)
      → length (judged o owner thread r s t).1 ≤ length t + 1
  judged_bound r none t = omega arith
  judged_bound r (some s) t = elim (Bool-cases (s == "systemError")) [
    | inl h ↦ rw h (omega arith)
    | inr h ↦ rw h (omega arith)
  ]

  thread_rejected_bound :
      (r : Observation) (a : Option Bool) (old : Bool) (t : Trace)
      → length (thread_rejected o owner thread r a old t).1 ≤ length t + 1
  thread_rejected_bound r none old t = omega arith
  thread_rejected_bound r (some true) old t = omega arith
  thread_rejected_bound r (some false) true t = omega arith
  thread_rejected_bound r (some false) false t = omega arith

  after_thread_bound :
      (r : Observation) (a : Answer) (t : Trace)
      → length (after_thread o owner thread r a t).1 ≤ length t + 1
  after_thread_bound r (answered v) t =
      judged_bound (record r { thread_read = some (observed_status (read_status o v)) })
        (read_status o v) t
  after_thread_bound r (rejected e) t = thread_rejected_bound r (auth_error o e) (unsupported o e) t
  after_thread_bound r (broken auth) t = omega arith
  after_thread_bound r crashed t = omega arith

  after_loaded_bound :
      (r : Observation) (b : Bool) (t : Trace)
      → length (after_loaded o owner thread r b t).1 ≤ length t + 2
  after_loaded_bound r false t = omega arith
  after_loaded_bound r true t =
      let more =
        after_thread_bound (record r { thread_loaded = some true })
          (owner.call t (reads_thread thread)) (reads_thread thread ∷ t) in
      omega (arith, more)

  after_ids_bound :
      (r : Observation) (ids : Option (List Value)) (t : Trace)
      → length (after_ids o owner thread r ids t).1 ≤ length t + 2
  after_ids_bound r none t = omega arith
  after_ids_bound r (some vs) t = elim (Bool-cases (sortable vs)) [
    | inl h ↦ rw h (after_loaded_bound r (any_id (is_text thread) vs) t)
    | inr h ↦ rw h (omega arith)
  ]

  after_pages_bound :
      (r : Observation) (w : Paged × Trace)
      → length (after_pages o owner thread r w).1 ≤ length w.1 + 2
  after_pages_bound r (rows vs, t) = after_ids_bound r (loaded_ids vs) t
  after_pages_bound r (page_rejected e, t) = omega arith
  after_pages_bound r (page_broken, t) = omega arith
  after_pages_bound r (page_crashed, t) = omega arith

  list_bound :
      (r : Observation) (t : Trace) → length (list_threads o owner thread r t).1 ≤ length t + 10
  list_bound r t =
      let pages = read_pages_bound owner max_pages none [] [] t in
      let after = after_pages_bound r (read_pages owner max_pages none [] [] t) in
      omega (arith, pages, after)

  account_rejected_bound :
      (r : Observation) (old : Bool) (a : Option Bool) (t : Trace)
      → length (account_rejected o owner thread r old a t).1 ≤ length t + 10
  account_rejected_bound r true a t = list_bound (record r { account = account_unsupported }) t
  account_rejected_bound r false none t = omega arith
  account_rejected_bound r false (some true) t = omega arith
  account_rejected_bound r false (some false) t =
      list_bound (record r { account = account_unavailable }) t

  after_account_bound :
      (r : Observation) (a : Answer) (t : Trace)
      → length (after_account o owner thread r a t).1 ≤ length t + 10
  after_account_bound r (answered v) t = elim (Bool-cases (needs_auth (account_observation v))) [
    | inl h ↦ rw h (omega arith)
    | inr h ↦ rw h (list_bound (record r { account = account_observation v }) t)
  ]
  after_account_bound r (rejected e) t =
      account_rejected_bound r (unsupported o e) (auth_error o e) t
  after_account_bound r (broken auth) t = omega arith
  after_account_bound r crashed t = omega arith

  after_notice_bound :
      (r : Observation) (a : Answer) (t : Trace)
      → length (after_notice o owner thread r a t).1 ≤ length t + 11
  after_notice_bound r (answered v) t =
      let more =
        after_account_bound (record r { transport_reachable = true }) (owner.call t reads_account)
          (reads_account ∷ t) in
      omega (arith, more)
  after_notice_bound r (rejected e) t = omega arith
  after_notice_bound r (broken auth) t = omega arith
  after_notice_bound r crashed t = omega arith

  after_start_bound :
      (r : Observation) (a : Answer) (t : Trace)
      → length (after_start o owner thread r a t).1 ≤ length t + 12
  after_start_bound r (answered v) t =
      let more = after_notice_bound r (owner.call t initialized) (initialized ∷ t) in
      omega (arith, more)
  after_start_bound r (rejected e) t = omega arith
  after_start_bound r (broken auth) t = omega arith
  after_start_bound r crashed t = omega arith

  after_connect_bound :
      (r : Observation) (c : Connected) → length (after_connect o owner thread r c).1 ≤ 13
  after_connect_bound r connected =
      let more = after_start_bound r (owner.call [] initialize) (initialize ∷ []) in
      omega (arith, more)
  after_connect_bound r (refused auth) = omega arith
  after_connect_bound r not_connected = omega arith

-- A probe ends after at most 13 calls, whatever the owner answers; no cursor that an owner sends can
-- keep it reading.
pub probe_bound :
    (o : Outside) (owner : Peer) (endpoint thread : String)
    → length (probe_owner o owner endpoint thread).1 ≤ 13
unfolding probe_owner
probe_bound o owner endpoint thread =
    elim (Bool-cases (endpoint == "shared-local" || endpoint == "local")) [
      | inl h ↦ rw h (omega arith)
      | inr h ↦ elim (Bool-cases (supported_endpoint o endpoint)) [
        | inr s ↦ rw h (rw s (omega arith))
        | inl s ↦ elim (Bool-cases (thread == "")) [
          | inl m ↦ rw h (rw s (rw m (omega arith)))
          | inr m ↦ rw h (rw s (rw m (after_connect_bound o owner thread base owner.connect)))
        ]
      ]
    ]
