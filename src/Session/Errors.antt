-- ===== src/Session/Errors.antt =====
-- `_operation_error` and `_submission_error`.
use codex_monitor.Common.{
  ℕ, String, Bool, false, ◌||◌, some, List, [], ◌∷◌, map, if◌then◌else◌, codes, text_append,
  is_some,
}
use codex_monitor.Endpoint.{strip_prefix, lower}
use codex_monitor.Json.{number}
use codex_monitor.Json.Numeric.{int, negsuc, number_eq}
use codex_monitor.Monitor.Dispatch.{Failure, retryable, uncertain_submission, permanent}
use codex_monitor.Session.Rpc.{RpcError}

-- `detail in message`
unfoldable pub contains : List ℕ → List ℕ → Bool
contains detail [] = is_some (strip_prefix detail [])
contains detail (c ∷ cs) =
    let rest = contains detail cs in is_some (strip_prefix detail (c ∷ cs)) || rest

abbrev pub target_details : List String
target_details =
    "thread not found:" ∷ "no rollout found for thread id" ∷ " is archived"
    ∷ "does not support queued submissions" ∷ "direct app-server input is not allowed"
    ∷ "user message queue is unavailable" ∷ []

unfoldable any_detail : List ℕ → List String → Bool
any_detail message [] = false
any_detail message (d ∷ ds) = contains (codes d) message || any_detail message ds

-- `str(exc).lower()`. A letter outside ASCII whose lower case has an ASCII letter cannot complete
-- one of the details.
unfoldable pub names_target : RpcError → Bool
unfolding any_detail
names_target e = any_detail (map lower (codes e.message)) target_details

-- `exc.code == -(n + 1)`
abbrev pub code_is : ℕ → RpcError → Bool
code_is n e = elim e.code [ some (number a) ↦ number_eq a (int (negsuc n)) | _ ↦ false ]

-- `exc.code in (-32700, -32600, -32601, -32602)`
abbrev pub is_protocol_error : RpcError → Bool
is_protocol_error e = code_is 32699 e || (code_is 32599 e || (code_is 32600 e || code_is 32601 e))

abbrev pub is_permanent : RpcError → Bool
is_permanent e = is_protocol_error e || names_target e

-- An exception: its class and its text.
unfoldable pub operation_error : String → RpcError → Failure × String
operation_error operation e =
    if is_permanent e
    then (permanent, text_append operation (text_append " rejected: " e.message))
    else (retryable, text_append operation (text_append " temporarily failed: " e.message))

unfoldable pub submission_error : RpcError → Failure × String
unfolding operation_error
submission_error e =
    if is_permanent e
    then operation_error "queue submission" e
    else if code_is 32000 e
    then (retryable, text_append "queue submission temporarily failed: " e.message)
    else (
      uncertain_submission,
      text_append "queue submission failed after handoff; acceptance unknown: " e.message,
    )
