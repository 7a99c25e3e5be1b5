-- ===== src/Predicate/Samples.antt =====
-- Small values on which the theorems of this folder are applied.
use codex_monitor.Common.{◌≡◌, ◌≤◌, refl, String, List, [], ◌∷◌, arith, ok}
use Prim.Native.String.{len}
use codex_monitor.Json.{Value, number}
use codex_monitor.Json.Numeric.{int, pos}
use codex_monitor.Predicate.Condition.{gt, lte, judge}
use codex_monitor.Predicate.Pointer.{pointer_tokens}
use codex_monitor.Predicate.RoundTrip.{escape, behind, write_pointer, pointer_tokens-write_pointer}
use codex_monitor.Predicate.Complement.{negated, judge-opposite}

abbrev three : Value
three = number (int (pos 3))

judge-opposite_example :
    judge lte (number (int (pos 2))) three ≡ negated (judge gt (number (int (pos 2))) three)
judge-opposite_example = judge-opposite gt (number (int (pos 2))) three (λ h. refl)

abbrev odd_tokens : List String
odd_tokens = "a/b" ∷ "~" ∷ "" ∷ []

odd_pointer_size : len (write_pointer odd_tokens) ≤ 1024
unfolding write_pointer escape behind
odd_pointer_size = omega arith

pointer_tokens-write_pointer_example : pointer_tokens (write_pointer odd_tokens) ≡ ok odd_tokens
pointer_tokens-write_pointer_example =
    pointer_tokens-write_pointer odd_tokens (omega arith) odd_pointer_size
