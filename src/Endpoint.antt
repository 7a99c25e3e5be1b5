-- ===== src/Endpoint.antt =====
-- `validate_endpoint` of codex_monitor/monitor.py. urllib's urlsplit is a parameter.
use codex_monitor.Common.{
  ℕ, ◌+◌, String, Bool, true, false, not, ◌&&◌, ◌||◌, Option, none, some, List, [], ◌∷◌, map, leb,
  eqb, if◌then◌else◌, is_some, codes, is_alnum, at_most, Result, ok, err, ◌>>◌, refuse_if, ◌==◌,
}

-- What is read of urlsplit's result; `port_valid` is false where reading `.port` raises.
pub record Url : Type 0 where
  pub scheme : String
  pub netloc : String
  pub hostname : Option String
  pub username : Option String
  pub password : Option String
  pub fragment : String
  pub port_valid : Bool

-- `s.removeprefix(p)` where `s.startswith(p)`, over the characters.
unfoldable pub strip_prefix : List ℕ → List ℕ → Option (List ℕ)
strip_prefix [] s = some s
strip_prefix (p ∷ ps) [] = none
strip_prefix (p ∷ ps) (c ∷ s) = let rest = strip_prefix ps s in if eqb p c then rest else none

unfoldable pub any_code : (ℕ → Bool) → List ℕ → Bool
any_code p [] = false
any_code p (c ∷ cs) = p c || any_code p cs

-- `str.isspace` of one character.
abbrev pub is_space : ℕ → Bool
is_space c =
    (leb 9 c && leb c 13)
    || ((leb 28 c && leb c 32)
        || (eqb c 133
            || (eqb c 160
                || (eqb c 5760
                    || ((leb 8192 c && leb c 8202)
                        || (eqb c 8232
                            || (eqb c 8233 || (eqb c 8239 || (eqb c 8287 || eqb c 12288)))))))))

unfoldable pub ends_with_colon : List ℕ → Bool
ends_with_colon [] = false
ends_with_colon (c ∷ []) = eqb c 58
ends_with_colon (c ∷ d ∷ cs) = ends_with_colon (d ∷ cs)

unfoldable pub starts_with_slash : List ℕ → Bool
starts_with_slash [] = false
starts_with_slash (c ∷ cs) = eqb c 47

-- `_SSH_ALIAS.fullmatch`
is_ssh_alias : List ℕ → Bool
is_ssh_alias [] = false
is_ssh_alias (c ∷ cs) =
    is_alnum c && at_most (λ d. is_alnum d || (eqb d 95 || (eqb d 46 || eqb d 45))) 99 cs

abbrev pub lower : ℕ → ℕ
lower c = if leb 65 c && leb c 90 then c + 32 else c

pub same_codes : List ℕ → List ℕ → Bool
same_codes [] [] = true
same_codes (c ∷ cs) (d ∷ ds) = eqb c d && same_codes cs ds
same_codes _ _ = false

abbrev pub lower_is : String → String → Bool
lower_is host name = same_codes (map lower (codes host)) (codes name)

abbrev pub is_loopback : String → Bool
is_loopback host = lower_is host "127.0.0.1" || (lower_is host "localhost" || lower_is host "::1")

-- A missing host name and an empty one are refused alike.
abbrev pub host_of : Url → String
host_of u = elim u.hostname [ none ↦ "" | some h ↦ h ]

abbrev malformed : Url → Bool
malformed u =
    not u.port_valid
    || (not (u.scheme == "ws" || u.scheme == "wss")
        || (u.netloc == ""
            || (ends_with_colon (codes u.netloc)
                || (host_of u == ""
                    || (is_some u.username || (is_some u.password || not (u.fragment == "")))))))

unfoldable pub check_url : String → Option Url → Result String
unfolding ends_with_colon same_codes
check_url endpoint none = err 400 "endpoint URL is malformed"
check_url endpoint (some u) = do
  refuse_if (malformed u) 400 "endpoint URL is malformed or contains credentials"
  refuse_if (u.scheme == "ws" && not (is_loopback (host_of u))) 400
      "ws endpoint must use a loopback host; use wss:// for remote hosts"
  ok endpoint

abbrev is_web : List ℕ → Bool
is_web s = is_some (strip_prefix (codes "ws://") s) || is_some (strip_prefix (codes "wss://") s)

abbrev is_ssh : Option (List ℕ) → Bool
is_ssh none = false
is_ssh (some rest) = is_ssh_alias rest

unfoldable pub validate_endpoint : (String → Option Url) → String → Result String
unfolding strip_prefix any_code starts_with_slash is_ssh_alias at_most
validate_endpoint urlsplit endpoint =
    let s = codes endpoint in
    if endpoint == "" || any_code (λ c. eqb c 0) s
    then err 400 "endpoint must be a valid local or App Server transport"
    else if endpoint == "shared-local" || (endpoint == "local" || endpoint == "unix://")
    then ok endpoint
    else elim (strip_prefix (codes "unix://") s) [
      | some path ↦
          if starts_with_slash path
          then ok endpoint
          else err 400 "Unix endpoint must use an absolute socket path"
      | none ↦
          if is_web s
          then (if any_code is_space s
              then err 400 "endpoint URL is malformed"
              else check_url endpoint (urlsplit endpoint))
          else if is_ssh (strip_prefix (codes "ssh://") s)
          then ok endpoint
          else err 400 "unsupported endpoint"
    ]
