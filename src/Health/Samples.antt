-- ===== src/Health/Samples.antt =====
-- A cache of one entry, and an owner with one conversation, on which the theorems of this folder are applied.
use codex_monitor.Common.{
  ℕ, ◌≤◌, ◌≡◌, refl, String, Bool, true, false, Option, none, some, List, [], ◌∷◌, arith, length,
}
use codex_monitor.Json.{Value, entry, null, text, array, object, nil, cons, field, end}
use codex_monitor.Health.Words.{Outside}
use codex_monitor.Health.Peer.{
  Query, lists_loaded, reads_thread, Answer, answered, connected, Peer, Observation,
  ready_to_receive, not_asked,
}
use codex_monitor.Health.Answers.{account_unknown}
use codex_monitor.Health.Probe.{probe_owner}
use codex_monitor.Health.Ready.{IsReceiving, probe-IsReceiving}
use codex_monitor.Health.Bounds.{probe_bound}
use codex_monitor.Health.Retry.{
  Ask, start, notice, asks_account, asks_limits, access_verified, Line, is_dict, has_limits,
  retry_owner_auth,
}
use codex_monitor.Health.Verified.{HasLogin, HasAccess, retry_owner_auth_verified}
use codex_monitor.Health.Cache.{gave, Cached, Look, get, after_looks}
use codex_monitor.Health.Fresh.{looks_within, IsFresh, get-IsFresh}

-- The probe's value is the time of its call.
abbrev clock_cache : Cached ℕ
clock_cache = record {
  ttl = 2;
  max_entries = 1;
  probe = λ now endpoint thread. gave now;
  invalid = λ endpoint thread. 0;
}

abbrev first_look : Look
first_look = record { at_time = 10; endpoint = "ws://a"; thread = "t" }

looks_within_example : length (after_looks clock_cache (first_look ∷ first_look ∷ [])) ≤ 1
looks_within_example = looks_within clock_cache (first_look ∷ first_look ∷ [])

hit_value :
    (get clock_cache 11 "ws://a" "t" (after_looks clock_cache (first_look ∷ []))).1 ≡ some 10
unfolding get after_looks codex_monitor.Common.find_row codex_monitor.Common.select_rows
hit_value = refl

get-IsFresh_example : IsFresh clock_cache (first_look ∷ []) (record first_look { at_time = 11 }) 10
get-IsFresh_example =
    get-IsFresh clock_cache (first_look ∷ []) (record first_look { at_time = 11 }) 10 (omega arith)
      hit_value

abbrev plain : Outside
plain = record { fold = λ s. s; strip = λ s. s; urlsplit = λ s. none }

abbrev kind_answer : Query → Answer
kind_answer (lists_loaded cursor) =
    answered (object (field "data" (array (cons (text "t1") nil)) end))
kind_answer (reads_thread thread) = answered (object (field "status" (text "idle") end))
kind_answer q = answered (object end)

abbrev kind_owner : Peer
kind_owner = record { connect = connected; call = λ t q. kind_answer q }

abbrev seen_ready : Observation
seen_ready = record {
  status = ready_to_receive;
  ready = true;
  transport_reachable = true;
  thread_loaded = some true;
  account = account_unknown;
  thread_read = some "idle";
  execution = not_asked;
  reason = some "owner transport reachable and conversation loaded";
}

kind_probe : (probe_owner plain kind_owner "unix:///run/app.sock" "t1").0 ≡ some seen_ready
unfolding probe_owner codex_monitor.Health.Words.supported_endpoint codex_monitor.Endpoint.any_code
    codex_monitor.Endpoint.strip_prefix codex_monitor.Endpoint.starts_with_slash
    codex_monitor.Health.Answers.account_observation codex_monitor.Json.get_field
    codex_monitor.Health.Answers.status_value codex_monitor.Health.Answers.without_controls
kind_probe = refl

probe-IsReceiving_example : IsReceiving plain kind_owner "unix:///run/app.sock" "t1"
probe-IsReceiving_example =
    probe-IsReceiving plain kind_owner "unix:///run/app.sock" "t1" seen_ready kind_probe refl

probe_bound_example : length (probe_owner plain kind_owner "unix:///run/app.sock" "t1").1 ≤ 13
probe_bound_example = probe_bound plain kind_owner "unix:///run/app.sock" "t1"

abbrev login_answer : Ask → Answer
login_answer (asks_account refresh) =
    answered (object (field "account" (object (field "type" (text "chatgpt") end)) end))
login_answer asks_limits = answered (object (field "rateLimits" (object end) end))
login_answer q = answered (object end)

abbrev login_line : Line
login_line = record { connect = connected; call = λ t q. login_answer q }

login_retried : (retry_owner_auth plain login_line "unix:///run/app.sock").0 ≡ some access_verified
unfolding retry_owner_auth codex_monitor.Health.Words.supported_endpoint
    codex_monitor.Endpoint.any_code codex_monitor.Endpoint.strip_prefix
    codex_monitor.Endpoint.starts_with_slash codex_monitor.Json.get_field
login_retried = refl

retry_owner_auth_verified_example :
    HasLogin (login_line.call (notice ∷ start ∷ []) (asks_account false))
    × HasAccess
        (λ v. is_dict (entry "account" v))
        (login_line.call (asks_account false ∷ notice ∷ start ∷ []) (asks_account true))
    × HasAccess has_limits
        (login_line.call (asks_account true ∷ asks_account false ∷ notice ∷ start ∷ []) asks_limits)
    × ((retry_owner_auth plain login_line "unix:///run/app.sock").1
        ≡ asks_limits ∷ asks_account true ∷ asks_account false ∷ notice ∷ start ∷ [])
retry_owner_auth_verified_example =
    retry_owner_auth_verified plain login_line "unix:///run/app.sock" login_retried
