-- ===== src/Json/Numeric.antt =====
-- Python's numbers: an unbounded int, a finite float, and the floats that are not finite. A finite
-- float is exactly z / 2^k, and Python compares ints and floats by their exact values.
use codex_monitor.Common.{ℕ, suc, ◌+◌, ◌*◌, ◌^◌, Bool, ltb, leb, eqb}

-- `negsuc n` is -(n + 1).
pub data ℤ : Type 0 where
  pos : ℕ → ℤ
  negsuc : ℕ → ℤ

pub data Number : Type 0 where
  int : ℤ → Number
  -- z / 2^k
  float : ℤ → ℕ → Number
  nonfinite : Number

abbrev pub pos_part : ℤ → ℕ
pos_part (pos n) = n
pos_part (negsuc n) = 0

abbrev pub neg_part : ℤ → ℕ
neg_part (pos n) = 0
neg_part (negsuc n) = suc n

-- The numerator and the exponent of the denominator.
abbrev pub numerator : Number → ℤ
numerator (int z) = z
numerator (float z k) = z
numerator nonfinite = pos 0

abbrev pub exponent : Number → ℕ
exponent (int z) = 0
exponent (float z k) = k
exponent nonfinite = 0

-- Both sides of a comparison, brought to one denominator and with the negative parts moved over.
abbrev pub left_side : Number → Number → ℕ
left_side a b = pos_part (numerator a) * 2 ^ exponent b + neg_part (numerator b) * 2 ^ exponent a

abbrev pub right_side : Number → Number → ℕ
right_side a b = pos_part (numerator b) * 2 ^ exponent a + neg_part (numerator a) * 2 ^ exponent b

unfoldable pub number_lt : Number → Number → Bool
number_lt a b = ltb (left_side a b) (right_side a b)

unfoldable pub number_le : Number → Number → Bool
number_le a b = leb (left_side a b) (right_side a b)

unfoldable pub number_eq : Number → Number → Bool
number_eq a b = eqb (left_side a b) (right_side a b)
