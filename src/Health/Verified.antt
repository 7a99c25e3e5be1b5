-- ===== src/Health/Verified.antt =====
-- What has been seen of an owner whose access is said to be verified.
use codex_monitor.Common.{
  ◌≡◌, refl, ap, String, Bool, true, false, Option, none, some, List, [], ◌∷◌, arith, Bool-cases,
  inl, inr,
}
use codex_monitor.Json.{Value, Fields, object, get_field, entry}
use codex_monitor.Health.Words.{Outside, supported_endpoint, Fault, auth_error, unsupported}
use codex_monitor.Health.Peer.{
  Answer, answered, rejected, broken, crashed, Connected, connected, refused, not_connected,
}
use codex_monitor.Health.Retry.{
  Ask, start, notice, asks_account, asks_limits, Advice, access_verified, Line, by_auth, by_fault,
  by_probe, is_dict, has_limits, after_limits, refreshed, after_refresh, is_managed, managed, login,
  retry_account, retry_notice, retry_start, retry_connect, retry_owner_auth,
}

-- The parts of the answers that count.
abbrev pub HasLogin : Answer → Type 0
HasLogin (answered v) =
    (fs : Fields) × (entry "account" v ≡ some (object fs))
    × (is_managed (get_field "type" fs) ≡ true)
HasLogin _ = ⊥

abbrev pub HasAccess : (Value → Bool) → Answer → Type 0
HasAccess p (answered v) = p v ≡ true
HasAccess p _ = ⊥

abbrev is_verified : Option Advice → Bool
is_verified (some access_verified) = true
is_verified _ = false

by_fault_unverified : (o : Outside) (e : Fault) → is_verified (by_fault o e) ≡ false
by_fault_unverified o e = elim (Bool-cases (unsupported o e)) [
  | inl h ↦ rw h refl
  | inr h ↦ rw h (by_auth_unverified (auth_error o e))
]
  where
    by_auth_unverified : (a : Option Bool) → is_verified (by_auth a) ≡ false
    by_auth_unverified none = refl
    by_auth_unverified (some true) = refl
    by_auth_unverified (some false) = refl

by_probe_unverified : (b : Bool) → is_verified (some (by_probe b)) ≡ false
by_probe_unverified true = refl
by_probe_unverified false = refl

module _ (o : Outside) (line : Line) where
  fault_absurd : (e : Fault) → is_verified (by_fault o e) ≡ true → ⊥
  fault_absurd e h = let k = by_fault_unverified o e in ground (arith, h, k)

  probe_absurd : (b : Bool) → is_verified (some (by_probe b)) ≡ true → ⊥
  probe_absurd b h = let k = by_probe_unverified b in ground (arith, h, k)

  limits_seen :
      (a : Answer) (t : List Ask)
      → is_verified (after_limits o a t).0 ≡ true
      → HasAccess has_limits a × ((after_limits o a t).1 ≡ t)
  limits_seen (answered v) t h = elim (Bool-cases (has_limits v)) [
    | inl k ↦ (k, refl)
    | inr k ↦ absurd (let e : false ≡ true = rw k at h in ground (arith, e))
  ]
  limits_seen (rejected e) t h = absurd (fault_absurd e h)
  limits_seen (broken b) t h = absurd (probe_absurd b h)
  limits_seen crashed t h = absurd (ground (arith, h))

  refresh_seen :
      (a : Answer) (t : List Ask)
      → is_verified (after_refresh o line a t).0 ≡ true
      → HasAccess (λ v. is_dict (entry "account" v)) a
        × HasAccess has_limits (line.call t asks_limits)
        × ((after_refresh o line a t).1 ≡ asks_limits ∷ t)
  refresh_seen (answered v) t h = go (is_dict (entry "account" v)) refl h
    where
      go :
          (b : Bool)
          → is_dict (entry "account" v) ≡ b
          → is_verified (refreshed o line b t).0 ≡ true
          → (is_dict (entry "account" v) ≡ true)
            × HasAccess has_limits (line.call t asks_limits)
            × ((refreshed o line b t).1 ≡ asks_limits ∷ t)
      go false k e = absurd (ground (arith, e))
      go true k e =
          let (seen, calls) = limits_seen (line.call t asks_limits) (asks_limits ∷ t) e in
          (k, seen, calls)
  refresh_seen (rejected e) t h = absurd (fault_absurd e h)
  refresh_seen (broken b) t h = absurd (probe_absurd b h)
  refresh_seen crashed t h = absurd (ground (arith, h))

  -- What follows the first reading of the account, from these calls on.
  record AfterLogin (a : Answer) (t : List Ask) (all : List Ask) : Type 0 where
    login_there : HasLogin a
    refreshes : HasAccess (λ v. is_dict (entry "account" v)) (line.call t (asks_account true))
    limits_read : HasAccess has_limits (line.call (asks_account true ∷ t) asks_limits)
    calls : all ≡ asks_limits ∷ asks_account true ∷ t

  managed_seen :
      (v : Value) (fs : Fields) (t : List Ask) (b : Bool)
      → entry "account" v ≡ some (object fs)
      → is_managed (get_field "type" fs) ≡ b
      → is_verified (managed o line b t).0 ≡ true
      → AfterLogin (answered v) t (managed o line b t).1
  managed_seen v fs t false k m h = absurd (ground (arith, h))
  managed_seen v fs t true k m h =
      let (d, l, calls) =
        refresh_seen (line.call t (asks_account true)) (asks_account true ∷ t) h in
      record { login_there = (fs, k, m); refreshes = d; limits_read = l; calls = calls }

  login_seen :
      (v : Value) (t : List Ask) (account : Option Value)
      → entry "account" v ≡ account
      → is_verified (login o line account t).0 ≡ true
      → AfterLogin (answered v) t (login o line account t).1
  login_seen v t (some (object fs)) k h =
      managed_seen v fs t (is_managed (get_field "type" fs)) k refl h
  login_seen v t none k h = absurd (ground (arith, h))
  login_seen v t (some _) k h = absurd (ground (arith, h))

  account_seen :
      (a : Answer) (t : List Ask)
      → is_verified (retry_account o line a t).0 ≡ true
      → AfterLogin a t (retry_account o line a t).1
  account_seen (answered v) t h = login_seen v t (entry "account" v) refl h
  account_seen (rejected e) t h = absurd (fault_absurd e h)
  account_seen (broken b) t h = absurd (probe_absurd b h)
  account_seen crashed t h = absurd (ground (arith, h))

  abbrev asked : List Ask
  asked = asks_account false ∷ notice ∷ start ∷ []

  notice_seen :
      (a : Answer)
      → is_verified (retry_notice o line a (notice ∷ start ∷ [])).0 ≡ true
      → AfterLogin
          (line.call (notice ∷ start ∷ []) (asks_account false))
          asked
          (retry_notice o line a (notice ∷ start ∷ [])).1
  notice_seen (answered v) h =
      account_seen (line.call (notice ∷ start ∷ []) (asks_account false)) asked h
  notice_seen (rejected e) h = absurd (fault_absurd e h)
  notice_seen (broken b) h = absurd (probe_absurd b h)
  notice_seen crashed h = absurd (ground (arith, h))

  start_seen :
      (a : Answer)
      → is_verified (retry_start o line a (start ∷ [])).0 ≡ true
      → AfterLogin
          (line.call (notice ∷ start ∷ []) (asks_account false))
          asked
          (retry_start o line a (start ∷ [])).1
  start_seen (answered v) h = notice_seen (line.call (start ∷ []) notice) h
  start_seen (rejected e) h = absurd (fault_absurd e h)
  start_seen (broken b) h = absurd (probe_absurd b h)
  start_seen crashed h = absurd (ground (arith, h))

  connect_seen :
      (c : Connected)
      → is_verified (retry_connect o line c).0 ≡ true
      → AfterLogin
          (line.call (notice ∷ start ∷ []) (asks_account false))
          asked
          (retry_connect o line c).1
  connect_seen connected h = start_seen (line.call [] start) h
  connect_seen (refused b) h = absurd (probe_absurd b h)
  connect_seen not_connected h = absurd (ground (arith, h))

-- An operator is told that the access of an owner is verified only where the owner reported a
-- managed login, was asked for one refresh, answered it with an account, and then answered a
-- request for its limits with such limits; no other calls were made, and no work was sent.
pub retry_owner_auth_verified :
    (o : Outside) (line : Line) (endpoint : String)
    → (retry_owner_auth o line endpoint).0 ≡ some access_verified
    → HasLogin (line.call (notice ∷ start ∷ []) (asks_account false))
      × HasAccess
          (λ v. is_dict (entry "account" v))
          (line.call (asks_account false ∷ notice ∷ start ∷ []) (asks_account true))
      × HasAccess has_limits
          (line.call (asks_account true ∷ asks_account false ∷ notice ∷ start ∷ []) asks_limits)
      × ((retry_owner_auth o line endpoint).1
          ≡ asks_limits ∷ asks_account true ∷ asks_account false ∷ notice ∷ start ∷ [])
unfolding retry_owner_auth
retry_owner_auth_verified o line endpoint e = elim (Bool-cases (supported_endpoint o endpoint)) [
  | inr h ↦ absurd (let k : false ≡ true = ap is_verified (rw h at e) in ground (arith, k))
  | inl h ↦
      let s = connect_seen o line line.connect (ap is_verified (rw h at e)) in
      (s.login_there, s.refreshes, s.limits_read, rw h s.calls)
]
