-- ===== src/Predicate/Complement.antt =====
-- The operators of a condition come in pairs that say the opposite.
use codex_monitor.Common.{
  ◌≡◌, refl, sym, ap, Bool, Bool-cases, inl, inr, true, false, not, arith, if◌then◌else◌,
}
use codex_monitor.Json.{Value, null, boolean, number, text, array, object, opaque}
use codex_monitor.Json.Numeric.{Number, number_lt, number_le}
use codex_monitor.Predicate.Equality.{strict_equal, is_finite}
use codex_monitor.Predicate.Condition.{
  Operator, eq, ne, gt, gte, lt, lte, is_order, is_number, PredicateState, matched, not_matched,
  missing_pointer, ordering_requires_number, verdict, compares, ordered, judge,
}

-- The operator that says the opposite.
abbrev pub opposite : Operator → Operator
opposite eq = ne
opposite ne = eq
opposite gt = lte
opposite gte = lt
opposite lt = gte
opposite lte = gt

abbrev pub negated : PredicateState → PredicateState
negated matched = not_matched
negated not_matched = matched
negated missing_pointer = missing_pointer
negated ordering_requires_number = ordering_requires_number

le-lt : (a b : Number) → number_le a b ≡ not (number_lt b a)
unfolding number_le number_lt
le-lt a b = ground arith

verdict-not : (b : Bool) → verdict (not b) ≡ negated (verdict b)
verdict-not true = refl
verdict-not false = refl

-- The branch of `judge` for an order.
abbrev order_state : Operator → Value → Value → PredicateState
order_state o value expected =
    if is_number value then verdict (ordered o value expected) else ordering_requires_number

order_opposite :
    (o other : Operator) (value expected : Value)
    → ((a b : Number) → compares other a b ≡ not (compares o a b))
    → is_number expected ≡ true
    → order_state other value expected ≡ negated (order_state o value expected)
order_opposite o other (number a) (number b) opposed h = elim (Bool-cases (is_finite a)) [
  | inl t ↦ rw t (rw (opposed a b) (verdict-not (compares o a b)))
  | inr t ↦ rw t refl
]
order_opposite o other (number a) null opposed h = cc
order_opposite o other (number a) (boolean b) opposed h = cc
order_opposite o other (number a) (text s) opposed h = cc
order_opposite o other (number a) (array vs) opposed h = cc
order_opposite o other (number a) (object fs) opposed h = cc
order_opposite o other (number a) opaque opposed h = cc
order_opposite o other null expected opposed h = refl
order_opposite o other (boolean b) expected opposed h = refl
order_opposite o other (text s) expected opposed h = refl
order_opposite o other (array vs) expected opposed h = refl
order_opposite o other (object fs) expected opposed h = refl
order_opposite o other opaque expected opposed h = refl

lt-le : (a b : Number) → number_lt a b ≡ not (number_le b a)
unfolding number_le number_lt
lt-le a b = ground arith

not-not : (b : Bool) → not (not b) ≡ b
not-not true = refl
not-not false = refl

-- For a value and the operand of a condition that was admitted (an order needs a number), an
-- operator matches exactly where its opposite does not, and the two are invalid together.
pub judge-opposite :
    (o : Operator) (value expected : Value)
    → (is_order o ≡ true → is_number expected ≡ true)
    → judge (opposite o) value expected ≡ negated (judge o value expected)
unfolding judge
judge-opposite eq value expected h = verdict-not (strict_equal value expected)
judge-opposite ne value expected h =
    rw (sym (verdict-not (not (strict_equal value expected))))
      (ap verdict (sym (not-not (strict_equal value expected))))
judge-opposite gt value expected h =
    order_opposite gt lte value expected (λ a b. le-lt a b) (h refl)
judge-opposite gte value expected h =
    order_opposite gte lt value expected (λ a b. lt-le a b) (h refl)
judge-opposite lt value expected h =
    order_opposite lt gte value expected (λ a b. le-lt b a) (h refl)
judge-opposite lte value expected h =
    order_opposite lte gt value expected (λ a b. lt-le b a) (h refl)
