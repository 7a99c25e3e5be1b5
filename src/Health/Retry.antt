-- ===== src/Health/Retry.antt =====
-- `retry_owner_auth` of codex_monitor/owner_recovery.py: one refresh of an owner's login, asked for
-- by an operator.
use codex_monitor.Common.{
  String, Bool, true, false, ◌||◌, Option, none, some, List, [], ◌∷◌, if◌then◌else◌,
}
use codex_monitor.Json.{Value, object, get_field, entry, is_text}
use codex_monitor.Health.Words.{Outside, supported_endpoint, Fault, auth_error, unsupported}
use codex_monitor.Health.Peer.{
  Answer, answered, rejected, broken, crashed, Connected, connected, refused, not_connected,
}

pub data Ask : Type 0 where
  start notice : Ask
  -- `account/read`, and whether it asks for a refresh
  asks_account : Bool → Ask
  asks_limits : Ask

-- The sentences that are shown to the operator.
pub data Advice : Type 0 where
  no_endpoint no_login other_login still_unavailable unverified_access access_verified : Advice
  no_support still_failed retry_failed access_rejected timed_out not_completed : Advice

-- A call whose time is up is not sent; it is one that is broken.
pub record Line : Type 0 where
  pub connect : Connected
  pub call : List Ask → Ask → Answer

-- `none` where an exception leaves the function.
abbrev pub Told : Type 0
Told = Option Advice × List Ask

abbrev pub by_auth : Option Bool → Option Advice
by_auth none = none
by_auth (some true) = some still_failed
by_auth (some false) = some retry_failed

-- The handlers of the one `try`.
abbrev pub by_fault : Outside → Fault → Option Advice
by_fault o e = if unsupported o e then some no_support else by_auth (auth_error o e)

abbrev pub by_probe : Bool → Advice
by_probe true = access_rejected
by_probe false = timed_out

abbrev pub is_dict : Option Value → Bool
is_dict (some (object fs)) = true
is_dict _ = false

abbrev pub has_limits : Value → Bool
has_limits v = is_dict (entry "rateLimits" v) || is_dict (entry "rateLimitsByLimitId" v)

abbrev pub after_limits : Outside → Answer → List Ask → Told
after_limits o (answered v) t =
    (some (if has_limits v then access_verified else unverified_access), t)
after_limits o (rejected e) t = (by_fault o e, t)
after_limits o (broken auth) t = (some (by_probe auth), t)
after_limits o crashed t = (some not_completed, t)

abbrev pub refreshed : Outside → Line → Bool → List Ask → Told
refreshed o line false t = (some still_unavailable, t)
refreshed o line true t = after_limits o (line.call t asks_limits) (asks_limits ∷ t)

abbrev pub after_refresh : Outside → Line → Answer → List Ask → Told
after_refresh o line (answered v) t = refreshed o line (is_dict (entry "account" v)) t
after_refresh o line (rejected e) t = (by_fault o e, t)
after_refresh o line (broken auth) t = (some (by_probe auth), t)
after_refresh o line crashed t = (some not_completed, t)

abbrev pub is_managed : Option Value → Bool
is_managed none = false
is_managed (some v) = is_text "chatgpt" v

abbrev pub managed : Outside → Line → Bool → List Ask → Told
managed o line false t = (some other_login, t)
managed o line true t =
    after_refresh o line (line.call t (asks_account true)) (asks_account true ∷ t)

abbrev pub login : Outside → Line → Option Value → List Ask → Told
login o line (some (object fs)) t = managed o line (is_managed (get_field "type" fs)) t
login o line _ t = (some no_login, t)

abbrev pub retry_account : Outside → Line → Answer → List Ask → Told
retry_account o line (answered v) t = login o line (entry "account" v) t
retry_account o line (rejected e) t = (by_fault o e, t)
retry_account o line (broken auth) t = (some (by_probe auth), t)
retry_account o line crashed t = (some not_completed, t)

abbrev pub retry_notice : Outside → Line → Answer → List Ask → Told
retry_notice o line (answered v) t =
    retry_account o line (line.call t (asks_account false)) (asks_account false ∷ t)
retry_notice o line (rejected e) t = (by_fault o e, t)
retry_notice o line (broken auth) t = (some (by_probe auth), t)
retry_notice o line crashed t = (some not_completed, t)

abbrev pub retry_start : Outside → Line → Answer → List Ask → Told
retry_start o line (answered v) t = retry_notice o line (line.call t notice) (notice ∷ t)
retry_start o line (rejected e) t = (by_fault o e, t)
retry_start o line (broken auth) t = (some (by_probe auth), t)
retry_start o line crashed t = (some not_completed, t)

abbrev pub retry_connect : Outside → Line → Connected → Told
retry_connect o line connected = retry_start o line (line.call [] start) (start ∷ [])
retry_connect o line (refused auth) = (some (by_probe auth), [])
retry_connect o line not_connected = (some not_completed, [])

unfoldable pub retry_owner_auth : Outside → Line → String → Told
retry_owner_auth o line endpoint =
    if supported_endpoint o endpoint
    then retry_connect o line line.connect
    else (some no_endpoint, [])
