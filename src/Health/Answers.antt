-- ===== src/Health/Answers.antt =====
-- `_status_value` and `_account_observation`.
use codex_monitor.Common.{
  String, Bool, true, false, not, ◌&&◌, ◌||◌, Option, none, some, eqb, leb, ltb, if◌then◌else◌,
  ◌==◌, text_append, length, codes,
}
use Prim.Native.Char.{code}
use codex_monitor.Json.{Value, Fields, null, boolean, text, object, field, end, get_field}
use codex_monitor.Session.Inspect.{falsy}
use codex_monitor.Health.Words.{Outside}

-- Control characters become blanks.
unfoldable pub without_controls : String → String
without_controls String.[] = String.[]
without_controls (String.◌∷◌ c s) =
    let rest = without_controls s in
    if ltb (code c) 32 || eqb (code c) 127 then text_append " " rest else String.◌∷◌ c rest

abbrev short_status : String → Option String
short_status s =
    if not (s == "") && leb (length (codes s)) 64 then some (without_controls s) else none

abbrev or_status : Option String → Option String → Option String
or_status (some s) other = some s
or_status none other = other

unfoldable mutual
  pub status_value : Outside → Value → Option String
  status_value o (text s) = short_status (o.strip s)
  status_value o (object fs) =
      or_status (status_in o "type" fs)
        (or_status (status_in o "status" fs) (status_in o "state" fs))
  status_value o _ = none

  status_in : Outside → String → Fields → Option String
  status_in o key end = none
  status_in o key (field j v fs) =
      let here = status_value o v in
      let rest = status_in o key fs in if j == key then here else rest

-- The `status` of an observation of the account.
pub data Account : Type 0 where
  account_unverified account_unsupported account_unavailable account_auth_required : Account
  account_unknown account_present account_absent : Account

abbrev is_null : Option Value → Bool
is_null none = true
is_null (some null) = true
is_null (some v) = false

abbrev is_flag : Bool → Option Value → Bool
is_flag b (some (boolean c)) = if c then b else not b
is_flag b _ = false

abbrev filled : Option Value → Account
filled none = account_absent
filled (some v) = if falsy v then account_absent else account_present

unfoldable pub account_observation : Value → Account
account_observation (object fs) =
    if is_null (get_field "account" fs) && is_flag true (get_field "requiresOpenaiAuth" fs)
    then account_auth_required
    else if is_null (get_field "account" fs)
        && not (is_flag false (get_field "requiresOpenaiAuth" fs))
    then account_unknown
    else filled (get_field "account" fs)
account_observation _ = account_unknown
