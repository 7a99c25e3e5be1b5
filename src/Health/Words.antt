-- ===== src/Health/Words.antt =====
-- What an owner's answers say: `_supported_endpoint`, `_auth_error`, `_unsupported`,
-- `_status_value`, `_account_observation`.
use codex_monitor.Common.{
  ℕ, String, Bool, false, not, ◌&&◌, ◌||◌, Option, none, some, List, [], ◌∷◌, length, is_some, leb,
  ltb, codes, if◌then◌else◌, ◌==◌,
}
use codex_monitor.Endpoint.{
  Url, strip_prefix, any_code, is_space, ends_with_colon, starts_with_slash, host_of, is_loopback,
}
use codex_monitor.Json.{Value, number}
use codex_monitor.Json.Numeric.{int, pos, negsuc, number_eq}
use codex_monitor.Session.Errors.{contains}
use codex_monitor.Session.Inspect.{hashable}

-- What the code uses of Python's texts and of urllib.
pub record Outside : Type 0 where
  -- `str.casefold`, by code points
  pub fold : List ℕ → List ℕ
  pub strip : String → String
  pub urlsplit : String → Option Url

abbrev starts_with : String → String → Bool
starts_with p s = is_some (strip_prefix (codes p) (codes s))

abbrev socket_path : String → Bool
socket_path s = elim (strip_prefix (codes "unix://") (codes s)) [
  | none ↦ false
  | some path ↦ starts_with_slash path && leb 2 (length path)
]

abbrev is_set : Option String → Bool
is_set none = false
is_set (some s) = not (s == "")

abbrev remote_url : String → Option Url → Bool
remote_url s none = false
remote_url s (some u) =
    u.port_valid
    && ((u.scheme == "ws" || u.scheme == "wss")
        && (not (u.netloc == "")
            && (not (host_of u == "")
                && (not (is_set u.username)
                    && (not (is_set u.password)
                        && (u.fragment == ""
                            && (not (any_code is_space (codes s))
                                && (not (ends_with_colon (codes u.netloc))
                                    && (u.scheme == "wss" || is_loopback (host_of u))))))))))

unfoldable pub supported_endpoint : Outside → String → Bool
supported_endpoint o s =
    if s == "" || any_code (λ c. ltb c 32) (codes s)
    then false
    else if starts_with "unix://" s
    then socket_path s
    else if starts_with "ws://" s || starts_with "wss://" s
    then remote_url s (o.urlsplit s)
    else false

-- `_RpcError`: the code and the text of the exception.
pub record Fault : Type 0 where
  pub code : Option Value
  pub message : String

abbrev auth_words : List String
auth_words =
    "auth" ∷ "credential" ∷ "forbidden" ∷ "invalid token" ∷ "logged out" ∷ "login" ∷ "log in"
    ∷ "not authenticated" ∷ "unauthorized" ∷ "unauthorised" ∷ "http 401" ∷ "http 403" ∷ []

unfoldable pub any_word : List ℕ → List String → Bool
any_word s [] = false
any_word s (w ∷ ws) = contains (codes w) s || any_word s ws

abbrev pub auth_text : Outside → String → Bool
auth_text o s = any_word (o.fold (codes s)) auth_words

-- `code in {401, 403, -32001, -32002}`; `none` where the code cannot be in a set (TypeError).
abbrev pub auth_code : Option Value → Option Bool
auth_code none = some false
auth_code (some (number a)) = some (
    number_eq a (int (pos 401))
    || (number_eq a (int (pos 403))
        || (number_eq a (int (negsuc 32000)) || number_eq a (int (negsuc 32001)))))
auth_code (some v) = if hashable v then some false else none

abbrev pub auth_by : Outside → String → Option Bool → Option Bool
auth_by o s none = none
auth_by o s (some b) = some (b || auth_text o s)

unfoldable pub auth_error : Outside → Fault → Option Bool
unfolding any_word
auth_error o e = auth_by o e.message (auth_code e.code)

abbrev method_missing : Option Value → Bool
method_missing (some (number a)) = number_eq a (int (negsuc 32600))
method_missing _ = false

unfoldable pub unsupported : Outside → Fault → Bool
unfolding any_word
unsupported o e =
    method_missing e.code
    || any_word (o.fold (codes e.message))
        ("method not found" ∷ "unknown variant" ∷ "unsupported method" ∷ [])
