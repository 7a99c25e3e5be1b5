-- ===== src/Health/Ready.antt =====
-- What has been seen of an owner that is said to be ready.
use codex_monitor.Common.{
  ◌≡◌, refl, sym, subst, String, Bool, true, false, ◌||◌, Option, none, some, List, [], ◌∷◌, ◌==◌,
  arith, Bool-cases, inl, inr, ◌⊎◌,
}
use codex_monitor.Json.{Value, is_text}
use codex_monitor.Health.Words.{Outside, supported_endpoint, auth_error, unsupported}
use codex_monitor.Health.Answers.{account_unsupported, account_unavailable, account_observation}
use codex_monitor.Health.Peer.{
  initialize, initialized, reads_account, reads_thread, Answer, answered, rejected, broken, crashed,
  Trace, Connected, connected, refused, not_connected, Peer, Observation, base, because, if_auth,
}
use codex_monitor.Health.Pages.{
  Paged, rows, page_rejected, page_broken, page_crashed, read_pages, loaded_ids, any_id, sortable,
}
use codex_monitor.Health.Probe.{
  read_status, judged, thread_rejected, after_thread, after_loaded, after_ids, after_pages,
  max_pages, list_threads, account_rejected, needs_auth, after_account, outer_rejected,
  after_notice, after_start, after_connect, probe_owner, unreadable_list, observed_status,
}

abbrev pub is_system : Option String → Bool
is_system none = false
is_system (some s) = s == "systemError"

-- The answer to `account/read` does not ask for a login.
abbrev pub HasAccount : Outside → Answer → Type 0
HasAccount o (answered v) = needs_auth (account_observation v) ≡ false
HasAccount o (rejected e) = (unsupported o e ≡ true) ⊎ (auth_error o e ≡ some false)
HasAccount o _ = ⊥

-- The answer to `thread/read` does not report systemError, or the server does not know the method.
abbrev pub HasThread : Outside → Answer → Type 0
HasThread o (answered v) = is_system (read_status o v) ≡ false
HasThread o (rejected e) = (auth_error o e ≡ some false) × (unsupported o e ≡ true)
HasThread o _ = ⊥

abbrev pub IsAnswered : Answer → Type 0
IsAnswered (answered v) = Unit
IsAnswered _ = ⊥

-- The list was read to its end from these calls on, it has the thread, and then the thread is read.
pub record IsListed (o : Outside) (owner : Peer) (thread : String) (t : Trace) : Type 0 where
  pub listing : List Value
  pub ids : List Value
  pub later : Trace
  pub read : read_pages owner max_pages none [] [] t ≡ (rows listing, later)
  pub collected : loaded_ids listing ≡ some ids
  pub loaded : any_id (is_text thread) ids ≡ true
  pub thread_read : HasThread o (owner.call later (reads_thread thread))

pub record IsReceiving (o : Outside) (owner : Peer) (endpoint thread : String) : Type 0 where
  pub supported : supported_endpoint o endpoint ≡ true
  pub connects : owner.connect ≡ connected
  pub greets : IsAnswered (owner.call [] initialize)
  pub noticed : IsAnswered (owner.call (initialize ∷ []) initialized)
  pub account : HasAccount o (owner.call (initialized ∷ initialize ∷ []) reads_account)
  pub listed : IsListed o owner thread (reads_account ∷ initialized ∷ initialize ∷ [])

not_ready : (x q : Observation) → some x ≡ some q → q.ready ≡ true → x.ready ≡ false → ⊥
not_ready x q e h p =
    let same : x ≡ q = cc in
    let r : x.ready ≡ true = subst (λ y. y.ready ≡ true) (sym same) h in ground (arith, p, r)

module _ (o : Outside) (owner : Peer) (thread : String) (q : Observation)
    (ready : q.ready ≡ true) where
  judged_ready :
      (r : Observation) (s : Option String) (t : Trace)
      → r.ready ≡ false
      → (judged o owner thread r s t).0 ≡ some q
      → is_system s ≡ false
  judged_ready r none t p e = refl
  judged_ready r (some s) t p e = elim (Bool-cases (s == "systemError")) [
    | inr h ↦ h
    | inl h ↦ absurd (not_ready _ q (rw h at e) ready p)
  ]

  thread_rejected_ready :
      (r : Observation) (a : Option Bool) (old : Bool) (t : Trace)
      → r.ready ≡ false
      → (thread_rejected o owner thread r a old t).0 ≡ some q
      → (a ≡ some false) × (old ≡ true)
  thread_rejected_ready r none old t p e = absurd (not_ready _ q e ready p)
  thread_rejected_ready r (some true) old t p e = absurd (not_ready _ q e ready p)
  thread_rejected_ready r (some false) true t p e = (refl, refl)
  thread_rejected_ready r (some false) false t p e = absurd (not_ready _ q e ready p)

  after_thread_ready :
      (r : Observation) (a : Answer) (t : Trace)
      → r.ready ≡ false
      → (after_thread o owner thread r a t).0 ≡ some q
      → HasThread o a
  after_thread_ready r (answered v) t p e =
      judged_ready (record r { thread_read = some (observed_status (read_status o v)) })
        (read_status o v) t p e
  after_thread_ready r (rejected f) t p e =
      thread_rejected_ready r (auth_error o f) (unsupported o f) t p e
  after_thread_ready r (broken auth) t p e = absurd (not_ready _ q e ready p)
  after_thread_ready r crashed t p e = absurd (not_ready _ q e ready p)

  after_loaded_ready :
      (r : Observation) (b : Bool) (t : Trace)
      → r.ready ≡ false
      → (after_loaded o owner thread r b t).0 ≡ some q
      → (b ≡ true) × HasThread o (owner.call t (reads_thread thread))
  after_loaded_ready r false t p e = absurd (not_ready _ q e ready p)
  after_loaded_ready r true t p e = (
    refl,
    after_thread_ready (record r { thread_loaded = some true }) (owner.call t (reads_thread thread))
        (reads_thread thread ∷ t) p e,
  )

  after_ids_ready :
      (r : Observation) (ids : Option (List Value)) (t : Trace)
      → r.ready ≡ false
      → (after_ids o owner thread r ids t).0 ≡ some q
      → (vs : List Value) × (ids ≡ some vs)
        × (any_id (is_text thread) vs ≡ true)
        × HasThread o (owner.call t (reads_thread thread))
  after_ids_ready r none t p e = absurd (not_ready _ q e ready p)
  after_ids_ready r (some vs) t p e = elim (Bool-cases (sortable vs)) [
    | inr h ↦ absurd (not_ready _ q (rw h at e) ready p)
    | inl h ↦
        let (b, k) = after_loaded_ready r (any_id (is_text thread) vs) t p (rw h at e) in
        (vs, refl, b, k)
  ]

  if_auth_ready :
      (a : Option Bool) (r : Observation)
      → r.ready ≡ false
      → (if_auth a r (because unreadable_list r)).ready ≡ false
  if_auth_ready none r p = p
  if_auth_ready (some true) r p = p
  if_auth_ready (some false) r p = p

  after_pages_ready :
      (r : Observation) (t : Trace) (w : Paged × Trace)
      → read_pages owner max_pages none [] [] t ≡ w
      → r.ready ≡ false
      → (after_pages o owner thread r w).0 ≡ some q
      → IsListed o owner thread t
  after_pages_ready r t (rows vs, u) k p e =
      let (ids, collected, loaded, known) = after_ids_ready r (loaded_ids vs) u p e in
      record {
        listing = vs;
        ids = ids;
        later = u;
        read = k;
        collected = collected;
        loaded = loaded;
        thread_read = known;
      }
  after_pages_ready r t (page_rejected f, u) k p e =
      absurd (not_ready _ q e ready (if_auth_ready (auth_error o f) r p))
  after_pages_ready r t (page_broken, u) k p e = absurd (not_ready _ q e ready p)
  after_pages_ready r t (page_crashed, u) k p e = absurd (not_ready _ q e ready p)

  list_ready :
      (r : Observation) (t : Trace)
      → r.ready ≡ false
      → (list_threads o owner thread r t).0 ≡ some q
      → IsListed o owner thread t
  list_ready r t p e = after_pages_ready r t (read_pages owner max_pages none [] [] t) refl p e

  account_rejected_ready :
      (r : Observation) (old : Bool) (a : Option Bool) (t : Trace)
      → r.ready ≡ false
      → (account_rejected o owner thread r old a t).0 ≡ some q
      → ((old ≡ true) ⊎ (a ≡ some false)) × IsListed o owner thread t
  account_rejected_ready r true a t p e =
      (inl refl, list_ready (record r { account = account_unsupported }) t p e)
  account_rejected_ready r false none t p e = absurd (not_ready _ q e ready p)
  account_rejected_ready r false (some true) t p e = absurd (not_ready _ q e ready p)
  account_rejected_ready r false (some false) t p e =
      (inr refl, list_ready (record r { account = account_unavailable }) t p e)

  after_account_ready :
      (r : Observation) (a : Answer) (t : Trace)
      → r.ready ≡ false
      → (after_account o owner thread r a t).0 ≡ some q
      → HasAccount o a × IsListed o owner thread t
  after_account_ready r (answered v) t p e =
      elim (Bool-cases (needs_auth (account_observation v))) [
        | inl h ↦ absurd (not_ready _ q (rw h at e) ready p)
        | inr h ↦ (h, list_ready (record r { account = account_observation v }) t p (rw h at e))
      ]
  after_account_ready r (rejected f) t p e =
      account_rejected_ready r (unsupported o f) (auth_error o f) t p e
  after_account_ready r (broken true) t p e = absurd (not_ready _ q e ready p)
  after_account_ready r (broken false) t p e = absurd (not_ready _ q e ready p)
  after_account_ready r crashed t p e = absurd (not_ready _ q e ready p)

  outer_ready :
      (r : Observation) (a : Option Bool) → r.ready ≡ false → outer_rejected r a ≡ some q → ⊥
  outer_ready r none p e = ground arith
  outer_ready r (some true) p e = not_ready _ q e ready p
  outer_ready r (some false) p e = not_ready _ q e ready p

  after_notice_ready :
      (r : Observation) (a : Answer) (t : Trace)
      → r.ready ≡ false
      → (after_notice o owner thread r a t).0 ≡ some q
      → IsAnswered a
        × HasAccount o (owner.call t reads_account)
        × IsListed o owner thread (reads_account ∷ t)
  after_notice_ready r (answered v) t p e =
      let (a, l) =
        after_account_ready (record r { transport_reachable = true }) (owner.call t reads_account)
          (reads_account ∷ t) p e in
      (tt, a, l)
  after_notice_ready r (rejected f) t p e = absurd (outer_ready r (auth_error o f) p e)
  after_notice_ready r (broken true) t p e = absurd (not_ready _ q e ready p)
  after_notice_ready r (broken false) t p e = absurd (not_ready _ q e ready p)
  after_notice_ready r crashed t p e = absurd (not_ready _ q e ready p)

  after_start_ready :
      (r : Observation) (a : Answer) (t : Trace)
      → r.ready ≡ false
      → (after_start o owner thread r a t).0 ≡ some q
      → IsAnswered a
        × IsAnswered (owner.call t initialized)
        × HasAccount o (owner.call (initialized ∷ t) reads_account)
        × IsListed o owner thread (reads_account ∷ initialized ∷ t)
  after_start_ready r (answered v) t p e =
      let (n, a, l) = after_notice_ready r (owner.call t initialized) (initialized ∷ t) p e in
      (tt, n, a, l)
  after_start_ready r (rejected f) t p e = absurd (outer_ready r (auth_error o f) p e)
  after_start_ready r (broken true) t p e = absurd (not_ready _ q e ready p)
  after_start_ready r (broken false) t p e = absurd (not_ready _ q e ready p)
  after_start_ready r crashed t p e = absurd (not_ready _ q e ready p)

  after_connect_ready :
      (endpoint : String) (r : Observation) (c : Connected)
      → owner.connect ≡ c
      → supported_endpoint o endpoint ≡ true
      → r.ready ≡ false
      → (after_connect o owner thread r c).0 ≡ some q
      → IsReceiving o owner endpoint thread
  after_connect_ready endpoint r connected k s p e =
      let (g, n, a, l) = after_start_ready r (owner.call [] initialize) (initialize ∷ []) p e in
      record { supported = s; connects = k; greets = g; noticed = n; account = a; listed = l }
  after_connect_ready endpoint r (refused true) k s p e = absurd (not_ready _ q e ready p)
  after_connect_ready endpoint r (refused false) k s p e = absurd (not_ready _ q e ready p)
  after_connect_ready endpoint r not_connected k s p e = absurd (not_ready _ q e ready p)

-- A probe says that an owner is ready to receive only where it has seen it: the endpoint is an
-- explicit WebSocket owner that took the connection and both greetings, the account was not said to
-- need a login, the list of loaded conversations was read to its end and has the thread, and the
-- answer on the thread does not report systemError, or the server does not know that call.
pub probe-IsReceiving :
    (o : Outside) (owner : Peer) (endpoint thread : String) (q : Observation)
    → (probe_owner o owner endpoint thread).0 ≡ some q
    → q.ready ≡ true
    → IsReceiving o owner endpoint thread
unfolding probe_owner base
probe-IsReceiving o owner endpoint thread q e ready =
    elim (Bool-cases (endpoint == "shared-local" || endpoint == "local")) [
      | inl h ↦ absurd (not_ready _ q (rw h at e) ready refl)
      | inr h ↦ elim (Bool-cases (supported_endpoint o endpoint)) [
        | inr s ↦ absurd (not_ready _ q (rw s at (rw h at e)) ready refl)
        | inl s ↦ elim (Bool-cases (thread == "")) [
          | inl m ↦ absurd (not_ready _ q (rw m at (rw s at (rw h at e))) ready refl)
          | inr m ↦
              after_connect_ready o owner thread q ready endpoint base owner.connect refl s refl
                (rw m at (rw s at (rw h at e)))
        ]
      ]
    ]
