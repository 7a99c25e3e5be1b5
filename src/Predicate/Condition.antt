-- ===== src/Predicate/Condition.antt =====
-- `normalize_condition` and `evaluate`. json.dumps is the parameter `dumps`, `none` where it raises.
use Prim.Native.String.{len}
use codex_monitor.Common.{
  String, Bool, true, false, ◌&&◌, not, Option, none, some, [], ◌∷◌, ltb, if◌then◌else◌, Result, ok,
  err, ◌>>=◌, ◌>>◌, require, refuse_if, ◌==◌,
}
use codex_monitor.Json.{
  Value, Fields, object, text, number, field, end, get_field, has_field, only_keys,
}
use codex_monitor.Json.Numeric.{Number, number_lt, number_le}
use codex_monitor.Predicate.Pointer.{pointer_tokens, resolve}
use codex_monitor.Predicate.Equality.{is_finite, strict_equal, finite_json}

pub data Operator : Type 0 where
  eq ne gt gte lt lte : Operator

pub record Condition : Type 0 where
  pub pointer : String
  pub operator : Operator
  pub value : Value

abbrev pub is_order : Operator → Bool
is_order eq = false
is_order ne = false
is_order _ = true

abbrev pub operator_of : String → Option Operator
operator_of s =
    if s == "eq"
    then some eq
    else if s == "ne"
    then some ne
    else if s == "gt"
    then some gt
    else if s == "gte"
    then some gte
    else if s == "lt"
    then some lt
    else if s == "lte"
    then some lte
    else none

abbrev pub operator_name : Operator → String
operator_name eq = "eq"
operator_name ne = "ne"
operator_name gt = "gt"
operator_name gte = "gte"
operator_name lt = "lt"
operator_name lte = "lte"

-- `_json_number`
abbrev pub is_number : Value → Bool
is_number (number n) = is_finite n
is_number _ = false

abbrev condition_fields : Value → Result Fields
condition_fields (object fs) = ok fs
condition_fields _ = err 400 "condition must be an object"

abbrev pointer_of : Option Value → Result String
pointer_of (some (text s)) = ok s
pointer_of _ = err 400 "JSON pointer must be a string"

abbrev operator_or_refuse : Option Operator → Result Operator
operator_or_refuse none = err 400 "condition operator must be eq, ne, gt, gte, lt or lte"
operator_or_refuse (some o) = ok o

abbrev named_operator : Option Value → Result Operator
named_operator (some (text s)) = operator_or_refuse (operator_of s)
named_operator _ = err 400 "condition operator must be eq, ne, gt, gte, lt or lte"

abbrev value_of : Option Value → Result Value
value_of none = err 400 "condition requires pointer, operator and value"
value_of (some v) = ok v

abbrev pub encoded_or_refuse : Option String → Result String
encoded_or_refuse none = err 400 "predicate value must be finite JSON"
encoded_or_refuse (some s) = ok s

abbrev pub as_value : Condition → Value
as_value c = object (
    field "pointer" (text c.pointer)
      (field "operator" (text (operator_name c.operator)) (field "value" c.value end)))

-- The checks on a condition whose entries have been read.
unfoldable pub check_condition : (Value → Option String) → Condition → Result (Condition × String)
check_condition dumps c = do
  tokens ← pointer_tokens c.pointer
  require (finite_json c.value) 400 "predicate value must be finite JSON"
  encoded ← encoded_or_refuse (dumps c.value)
  refuse_if (ltb 4096 (len encoded)) 400 "predicate value exceeds 4096 bytes"
  refuse_if (is_order c.operator && not (is_number c.value)) 400
      "ordering predicates require a finite number"
  canonical ← encoded_or_refuse (dumps (as_value c))
  ok (c, canonical)

abbrev has_exactly : Fields → Bool
has_exactly fs =
    only_keys ("pointer" ∷ "operator" ∷ "value" ∷ []) fs
    && (has_field "pointer" fs && (has_field "operator" fs && has_field "value" fs))

unfoldable pub normalize_condition : (Value → Option String) → Value → Result (Condition × String)
normalize_condition dumps condition = do
  fs ← condition_fields condition
  require (has_exactly fs) 400 "condition requires pointer, operator and value"
  pointer ← pointer_of (get_field "pointer" fs)
  tokens ← pointer_tokens pointer
  operator ← named_operator (get_field "operator" fs)
  value ← value_of (get_field "value" fs)
  check_condition dumps (record { pointer = pointer; operator = operator; value = value })

pub data PredicateState : Type 0 where
  matched not_matched missing_pointer ordering_requires_number : PredicateState

abbrev pub verdict : Bool → PredicateState
verdict true = PredicateState.matched
verdict false = PredicateState.not_matched

abbrev pub compares : Operator → Number → Number → Bool
compares gt a b = number_lt b a
compares gte a b = number_le b a
compares lt a b = number_lt a b
compares lte a b = number_le a b
compares _ a b = false

-- `value OP expected` of two values that the checks have shown to be numbers.
abbrev pub ordered : Operator → Value → Value → Bool
ordered o (number a) (number b) = compares o a b
ordered o _ _ = false

-- The verdict on a selected value.
unfoldable pub judge : Operator → Value → Value → PredicateState
judge eq value expected = verdict (strict_equal value expected)
judge ne value expected = verdict (not (strict_equal value expected))
judge o value expected =
    if is_number value
    then verdict (ordered o value expected)
    else PredicateState.ordering_requires_number

abbrev judge_selected : Condition → Option Value → PredicateState
judge_selected c none = PredicateState.missing_pointer
judge_selected c (some value) = judge c.operator value c.value

-- `evaluate(document, condition)` on a condition in its normal form.
unfoldable pub evaluate : (Value → Option String) → Value → Condition → Result PredicateState
unfolding judge
evaluate dumps document c = do
  normal ← check_condition dumps c
  tokens ← pointer_tokens c.pointer
  ok (judge_selected c (resolve document tokens))
